-- ===== src/Storage/Maps.antt =====
-- engine/src/storage.rs: one file of a collection, its map, and how both grow.
use dna_db.Prelude.{
  ℕ, zero, suc, ◌+◌, ◌-◌, ◌*◌, ◌%◌, ◌^◌, Bool, true, false, List, [], ◌∷◌, ◌++◌, length, take, drop,
  max, ltb, leb, if◌then◌else◌, u64_max, saturating_add,
}
use dna_db.Prelude.Results.{Result, ok, err, ◌>>=◌}
use dna_db.Codec.{CodecError}

-- The map and the file, the length of what was written to them, and how often they grew.
pub record Region : Type 0 where
  pub map' : List ℕ
  pub len : ℕ
  pub grow_events : ℕ

pub data StorageError : Type 0 where
  buffer_full : StorageError
  strand_scan : CodecError → StorageError

-- What a file is filled up with.
unfoldable pub zeros : ℕ → List ℕ
zeros zero = []
zeros (suc n) = 0 ∷ zeros n

-- usize::saturating_mul
unfoldable pub saturating_mul : ℕ → ℕ → ℕ
saturating_mul a b = if ltb u64_max (a * b) then u64_max else a * b

-- The loop of `ensure_capacity`.
unfoldable pub double_until : ℕ → ℕ → ℕ → ℕ
double_until zero new_size required = new_size
double_until (suc fuel) new_size required =
    let doubled = double_until fuel (saturating_mul new_size 2) required in
    if ltb new_size required then doubled else new_size

-- Whether it grew, and the map. 2^20 bytes double to more than a `usize` counts in 44 rounds.
unfoldable pub ensure_capacity : List ℕ → ℕ → ℕ → Bool × List ℕ
ensure_capacity map' current_len append_len =
    let required = saturating_add current_len append_len in
    if leb required (length map')
    then (false, map')
    else let new_size = double_until 64 (max (length map') (2 ^ 20)) required in
      (true, map' ++ zeros (new_size - length map'))

-- The start of the bytes, the map and the length.
unfoldable pub append_to_map : List ℕ → ℕ → List ℕ → Result StorageError (ℕ × List ℕ × ℕ)
append_to_map map' current_len bytes =
    let start = current_len in
    let end' = start + length bytes in
    if ltb (length map') end'
    then err buffer_full
    else ok (start, take start map' ++ (bytes ++ drop end' map'), end')

-- Also the count of growths, which is the callers' in the source.
unfoldable pub append_with_auto_grow : Region → List ℕ → Result StorageError (ℕ × Region)
unfolding ensure_capacity append_to_map
append_with_auto_grow region bytes =
    let (grew, grown) = ensure_capacity region.map' region.len (length bytes) in
    do
      (offset, map', len) ← append_to_map grown region.len bytes
      ok (
        offset,
        record {
          map' = map';
          len = len;
          grow_events = if grew then (region.grow_events + 1) % 2 ^ 64 else region.grow_events;
        },
      )
