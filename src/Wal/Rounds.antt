-- ===== src/Wal/Rounds.antt =====
-- engine/src/wal.rs: the rounds that its loops take.
use dna_db.Prelude.{
  ℕ, zero, suc, ◌≤◌, ◌<◌, ◌≡◌, ◌≢◌, refl, some, List, length, take, drop, arith, length-drop,
  from_le_bytes, read_exact, inl, inr, Option-cases, ◌⊎◌,
}
use dna_db.Wal.{
  Wal, Disk, WalError, out_of_fuel, Result, ok, err, read_body, read_entries, scan_entries,
  open_or_create, read_all_entries, initialize_and_scan, scan_file,
}

-- A body that is read leaves less.
read_body_shorter :
    (bytes payload left : List ℕ)
    → read_body bytes ≡ ok (payload, left)
    → length left ≤ length bytes
unfolding read_body read_exact
read_body_shorter bytes payload left h =
    ground (arith, length-drop 4 bytes, length-drop (from_le_bytes (take 4 bytes)) (drop 4 bytes))

read_body_fuel : (bytes : List ℕ) → read_body bytes ≢ err out_of_fuel
unfolding read_body read_exact
read_body_fuel bytes h = ground arith

Result-cases {ℓ} :
    {A : Type ℓ} (r : Result A) → ((a : A) × (r ≡ ok a)) ⊎ ((e : WalError) × (r ≡ err e))
Result-cases (ok a) = inl (a, refl)
Result-cases (err e) = inr (e, refl)

-- The read of a sequence leaves less.
read_exact_shorter :
    (bytes seq_buf rest : List ℕ)
    → read_exact 8 bytes ≡ some (seq_buf, rest)
    → length rest < length bytes
unfolding read_exact
read_exact_shorter bytes seq_buf rest h = ground (arith, length-drop 8 bytes)

pub read_entries_fuel :
    (fuel : ℕ) (bytes : List ℕ) → length bytes < fuel → read_entries fuel bytes ≢ err out_of_fuel
unfolding read_entries
read_entries_fuel zero bytes h e = absurd (omega arith)
read_entries_fuel (suc fuel) bytes h e = elim (Option-cases (read_exact 8 bytes)) [
  | inl q ↦ ground (arith, q)
  | inr ((seq_buf, rest), q) ↦ elim (Result-cases (read_body rest)) [
    | inl ((payload, left), b) ↦
        let shorter : length left < fuel =
          omega (
            arith,
            read_exact_shorter bytes seq_buf rest q,
            read_body_shorter rest payload left b,
          ) in
        ground (arith, q, b, read_entries_fuel fuel left shorter)
    | inr (x, b) ↦ ground (arith, q, b, read_body_fuel rest)
  ]
]

pub scan_entries_fuel :
    (fuel : ℕ) (bytes : List ℕ) (last : ℕ)
    → length bytes < fuel
    → scan_entries fuel bytes last ≢ err out_of_fuel
unfolding scan_entries
scan_entries_fuel zero bytes last h e = absurd (omega arith)
scan_entries_fuel (suc fuel) bytes last h e = elim (Option-cases (read_exact 8 bytes)) [
  | inl q ↦ ground (arith, q)
  | inr ((seq_buf, rest), q) ↦ elim (Result-cases (read_body rest)) [
    | inl ((payload, left), b) ↦
        let shorter : length left < fuel =
          omega (
            arith,
            read_exact_shorter bytes seq_buf rest q,
            read_body_shorter rest payload left b,
          ) in
        ground (arith, q, b, scan_entries_fuel fuel left (from_le_bytes seq_buf) shorter)
    | inr (x, b) ↦ ground (arith, q, b, read_body_fuel rest)
  ]
]

scan_file_fuel : (bytes : List ℕ) → scan_file bytes ≢ err out_of_fuel
unfolding scan_file read_exact
scan_file_fuel bytes h = ground (
  arith,
  length-drop 2 (drop 4 bytes),
  length-drop 4 bytes,
  scan_entries_fuel (suc (length bytes)) (drop 2 (drop 4 bytes)) 0
      (omega (arith, length-drop 2 (drop 4 bytes), length-drop 4 bytes)),
)

open_fuel : (disk : Disk) → open_or_create disk ≢ err out_of_fuel
unfolding open_or_create initialize_and_scan
open_fuel disk h = elim (Result-cases (scan_file disk.bytes)) [
  | inl (n, q) ↦ ground (arith, q)
  | inr (x, q) ↦ ground (arith, q, scan_file_fuel disk.bytes)
]

-- Neither a start nor a read of all entries runs out of rounds, on any bytes.
pub rounds_suffice :
    (disk : Disk) (wal : Wal)
    → (open_or_create disk ≢ err out_of_fuel) × (read_all_entries wal ≢ err out_of_fuel)
unfolding read_all_entries
rounds_suffice disk wal = (
  open_fuel disk,
  read_entries_fuel (suc (length wal.disk.bytes)) (drop 6 wal.disk.bytes)
      (omega (arith, length-drop 6 wal.disk.bytes)),
)
