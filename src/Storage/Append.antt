-- ===== src/Storage/Append.antt =====
-- engine/src/storage.rs: appending to a map that grows by itself.
use dna_db.Prelude.{
  ℕ, zero, suc, ◌+◌, ◌-◌, ◌*◌, ◌^◌, ◌≤◌, ◌≡◌, ◌⊎◌, refl, sym, ap, ◌∙◌, List, ◌∷◌, ◌++◌, length,
  drop, max, arith, leb, if◌then◌else◌, u64_max, saturating_add, saturating_add_fits, length-append,
  subst, take-append, drop-append, drop-drop, ◌%◌, leb→le, Bool-cases, inl, inr,
}
use mathlib.Core.List.{append_assoc}
use native.Mathlib.Nat.{pow-suc, mul_comm, mul_assoc}
use dna_db.Prelude.Results.{ok}
use dna_db.Storage.Maps.{
  Region, zeros, saturating_mul, double_until, ensure_capacity, append_to_map,
  append_with_auto_grow,
}

pub length-zeros : (n : ℕ) → length (zeros n) ≡ n
unfolding zeros
length-zeros zero = refl
length-zeros (suc n) = ap suc (length-zeros n)

zeros-suc : (k l : ℕ) → suc k ≡ l → 0 ∷ zeros k ≡ zeros l
unfolding zeros
zeros-suc k l e = ap zeros e

pub zeros-add : (m n : ℕ) → zeros (m + n) ≡ zeros m ++ zeros n
unfolding zeros
zeros-add zero n = ap zeros (omega arith)
zeros-add (suc m) n =
    sym (zeros-suc (m + n) (suc m + n) (omega arith)) ∙ ap (λ (r : List ℕ). 0 ∷ r) (zeros-add m n)

-- What was written, and the zeros that the file was filled up with.
pub record Holds (region : Region) (content : List ℕ) : Type 0 where
  pub room : ℕ
  pub file : region.map' ≡ content ++ zeros room
  pub written : region.len ≡ length content

saturating_mul_lem : (a : ℕ) → ((saturating_mul a 2 ≡ u64_max) ⊎ (saturating_mul a 2 ≡ a * 2))
unfolding saturating_mul
saturating_mul_lem a = ground arith

double_until_done :
    (fuel size required : ℕ) → required ≤ size → double_until fuel size required ≡ size
unfolding double_until
double_until_done zero size required h = refl
double_until_done (suc fuel) size required h = ground arith

mul-two-pow : (size fuel : ℕ) → size * 2 ^ suc fuel ≡ size * 2 * 2 ^ fuel
mul-two-pow size fuel =
    ap (◌*◌ size) (pow-suc 2 fuel ∙ mul_comm (2 ^ fuel) 2) ∙ sym (mul_assoc size 2 (2 ^ fuel))

-- Enough rounds, or a size that saturates, make room.
double_until_reaches :
    (fuel size required : ℕ)
    → required ≤ u64_max
    → required ≤ size * 2 ^ fuel
    → required ≤ double_until fuel size required
unfolding double_until
double_until_reaches zero size required small h = omega arith
double_until_reaches (suc fuel) size required small h =
    let next : required ≤ double_until fuel (saturating_mul size 2) required =
      elim (saturating_mul_lem size) [
        | inl e ↦ rw e (omega (arith, double_until_done fuel u64_max required small))
        | inr e ↦ rw e (
            double_until_reaches fuel (size * 2) required small
              (rw (sym (mul-two-pow size fuel)) h))
      ] in
    ground (arith, next)

-- The map that it returns has room, and holds what it held.
ensured :
    (content : List ℕ) (room added : ℕ)
    → length content + added ≤ u64_max
    → (room' : ℕ) × (added ≤ room')
      × ((ensure_capacity (content ++ zeros room) (length content) added).1
          ≡ content ++ zeros room')
ensured content room added small =
    let required = saturating_add (length content) added in
    let size = length (content ++ zeros room) in
    let new_size = double_until 64 (max size (2 ^ 20)) required in
    let exact : required ≡ length content + added =
      saturating_add_fits (length content) added small in
    let sizes : size ≡ length content + room =
      length-append content (zeros room) ∙ ap (λ n. length content + n) (length-zeros room) in
    elim (Bool-cases (leb required size)) [
      | inl fits ↦
          (room, omega (arith, leb→le required size fits), unfold ensure_capacity in rw fits refl)
      | inr short ↦
          let reached : required ≤ new_size =
            double_until_reaches 64 (max size (2 ^ 20)) required (omega arith) (omega arith) in
          (
            room + (new_size - size),
            omega (arith, reached, exact, sizes),
            (unfold ensure_capacity in
                (rw short (
                  append_assoc content (zeros room) (zeros (new_size - size))
                  ∙ ap (◌++◌ content) (sym (zeros-add room (new_size - size)))))),
          )
    ]

drop-zeros : (n k : ℕ) → drop n (zeros (n + k)) ≡ zeros k
drop-zeros n k =
    ap (drop n) (zeros-add n k)
    ∙ subst (λ m. drop m (zeros n ++ zeros k) ≡ zeros k) (length-zeros n)
        (drop-append (zeros n) (zeros k))

-- Where there is room, the bytes are put behind the content.
append_to_map-zeros :
    (content bytes : List ℕ) (room : ℕ)
    → append_to_map (content ++ zeros (length bytes + room)) (length content) bytes
      ≡ ok (length content, (content ++ bytes) ++ zeros room, length content + length bytes)
unfolding append_to_map
append_to_map-zeros content bytes room =
    let rest : drop (length content + length bytes) (content ++ zeros (length bytes + room))
        ≡ zeros room =
      sym
        (drop-drop (length bytes) (length content) _ (content ++ zeros (length bytes + room)) refl)
      ∙ ap (drop (length bytes)) (drop-append content (zeros (length bytes + room)))
      ∙ drop-zeros (length bytes) room in
    ground (
      arith,
      length-append content (zeros (length bytes + room)),
      length-zeros (length bytes + room),
      take-append content (zeros (length bytes + room)),
      rest,
      append_assoc content bytes (zeros room),
    )

-- An append never finds the map full: it puts the bytes behind what was written, at the offset that it
-- returns, and leaves zeros behind them. The sum of the lengths is a `usize`.
pub append-Holds :
    (region : Region) (content bytes : List ℕ)
    → Holds region content
    → length content + length bytes ≤ u64_max
    → (region' : Region) × (append_with_auto_grow region bytes ≡ ok (length content, region'))
      × Holds region' (content ++ bytes)
append-Holds region content bytes h small =
    let (room, enough, grown) = ensured content h.room (length bytes) small in
    let left = room - length bytes in
    let grown' : (ensure_capacity region.map' region.len (length bytes)).1
        ≡ content ++ zeros (length bytes + left) =
      rw (h.file, h.written) (grown ∙ ap (λ n. content ++ zeros n) (omega arith)) in
    let grew = (ensure_capacity region.map' region.len (length bytes)).0 in
    (
      record {
        map' = (content ++ bytes) ++ zeros left;
        len = length content + length bytes;
        grow_events = if grew then (region.grow_events + 1) % 2 ^ 64 else region.grow_events;
      },
      (unfold append_with_auto_grow in
          rw (grown', h.written, append_to_map-zeros content bytes left) refl),
      record { room = left; file = refl; written = sym (length-append content bytes) },
    )
