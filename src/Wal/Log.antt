-- ===== src/Wal/Log.antt =====
-- engine/src/wal.rs: a log that was opened and appended to holds its entries, also after a restart.
use dna_db.Prelude.{
  ℕ, suc, ◌+◌, ◌%◌, ◌^◌, ◌≤◌, ◌<◌, ◌≡◌, refl, sym, ap, ◌∙◌, subst, Option, List, [], ◌∷◌, ◌++◌,
  length, drop, All, All-append, arith, unwrap_or, max, u32_max, length-append, to_le_bytes,
  read_exact, from_le_bytes,
}
use mathlib.Core.List.{append_assoc, append-nil}
use dna_db.Wal.{
  Wal, Disk, ◌>>=◌, WalEntry, Result, ok, header, frame, read_all_entries, read_entries,
  scan_entries, scan_file, initialize_and_scan, open_or_create, append,
  truncate_preserve_next_sequence,
}
use dna_db.Wal.Frames.{
  Fits, frames, length-frames, read_entries-frames, scan_entries-frames, last_sequence_of,
}

-- The file is the header and the frames of the entries, and the next sequence is what a restart finds.
pub record IsLog (wal : Wal) (entries : List WalEntry) : Type 0 where
  pub file : wal.disk.bytes ≡ header ++ frames entries
  pub fits : All Fits entries
  pub next :
      wal.next_sequence
      ≡ max (last_sequence_of 0 entries + 1) (unwrap_or wal.disk.next_sequence_hint 1)
  pub next_fits : wal.next_sequence < 2 ^ 64

pub read_entries_of_file :
    (entries : List WalEntry) (tail : List ℕ)
    → All Fits entries
    → length tail < 8
    → read_entries (suc (length (header ++ (frames entries ++ tail)))) (frames entries ++ tail)
      ≡ ok entries
read_entries_of_file entries tail h short = read_entries-frames _ entries tail h short (
    omega (
      arith,
      length-frames entries,
      length-append header (frames entries ++ tail),
      length-append (frames entries) tail,
    ))

pub drop-header : (bytes : List ℕ) → drop 6 (header ++ bytes) ≡ bytes
unfolding to_le_bytes
drop-header bytes = refl

frames_nil : (entries : List WalEntry) → frames entries ++ [] ≡ frames entries
frames_nil entries = append-nil (frames entries)

read_entries_of_log :
    (entries : List WalEntry)
    → All Fits entries
    → read_entries (suc (length (header ++ frames entries))) (frames entries) ≡ ok entries
read_entries_of_log entries h =
    subst (λ bytes. read_entries (suc (length (header ++ bytes))) bytes ≡ ok entries)
      (frames_nil entries) (read_entries_of_file entries [] h (omega arith))

-- Every entry is read back, in order.
pub read_all-IsLog :
    (wal : Wal) (entries : List WalEntry) → IsLog wal entries → read_all_entries wal ≡ ok entries
unfolding read_all_entries
read_all-IsLog wal entries l =
    rw (l.file, drop-header (frames entries)) (read_entries_of_log entries l.fits)

last_sequence_of-append :
    (last : ℕ) (entries : List WalEntry) (e : WalEntry)
    → last_sequence_of last (entries ++ (e ∷ [])) ≡ e.sequence
last_sequence_of-append last [] e = refl
last_sequence_of-append last (d ∷ ds) e = last_sequence_of-append d.sequence ds e

frames-append :
    (entries : List WalEntry) (e : WalEntry)
    → frames (entries ++ (e ∷ [])) ≡ frames entries ++ frame e
frames-append [] e = append-nil (frame e)
frames-append (d ∷ ds) e =
    ap (◌++◌ (frame d)) (frames-append ds e) ∙ sym (append_assoc (frame d) (frames ds) (frame e))

-- An empty file becomes a log without entries.
pub open_empty-IsLog :
    (hint : Option ℕ)
    → unwrap_or hint 1 < 2 ^ 64
    → (wal : Wal) × (open_or_create (record { bytes = []; next_sequence_hint = hint }) ≡ ok wal)
      × IsLog wal []
      × (wal.next_sequence ≡ max 1 (unwrap_or hint 1))
unfolding open_or_create initialize_and_scan to_le_bytes
open_empty-IsLog hint h = (
  record {
    disk = record { bytes = header; next_sequence_hint = hint };
    next_sequence = max 1 (unwrap_or hint 1);
  },
  refl,
  record { file = refl; fits = tt; next = omega arith; next_fits = omega arith },
  refl,
)

pub length-header : length header ≡ 6
unfolding to_le_bytes
length-header = refl

pub scan_file-header :
    (bytes : List ℕ)
    → scan_file (header ++ bytes)
      ≡ (scan_entries (suc (length (header ++ bytes))) bytes 0 >>= λ last. ok ((last + 1) % 2 ^ 64))
unfolding scan_file to_le_bytes read_exact from_le_bytes
scan_file-header bytes = ground arith

scan_file-log :
    (entries : List WalEntry) (tail : List ℕ)
    → All Fits entries
    → length tail < 8
    → last_sequence_of 0 entries + 1 < 2 ^ 64
    → scan_file (header ++ (frames entries ++ tail)) ≡ ok (last_sequence_of 0 entries + 1)
scan_file-log entries tail h short bound = ground (
  arith,
  scan_file-header (frames entries ++ tail),
  scan_entries-frames (suc (length (header ++ (frames entries ++ tail)))) 0 entries tail h short (
      omega (
        arith,
        length-frames entries,
        length-append header (frames entries ++ tail),
        length-append (frames entries) tail,
      )),
)

pub initialize_and_scan_full :
    (bytes : List ℕ)
    → initialize_and_scan (header ++ bytes)
      ≡ (scan_file (header ++ bytes) >>= λ next. ok (header ++ bytes, next))
unfolding initialize_and_scan
initialize_and_scan_full bytes = ground (arith, length-append header bytes, length-header)

-- The log that is opened on a disk where the scan finds `next`.
abbrev pub opened : List ℕ → Option ℕ → ℕ → Wal
opened bytes hint next = record {
  disk = record { bytes = bytes; next_sequence_hint = hint };
  next_sequence = max next (unwrap_or hint 1);
}

pub open-scanned :
    (disk : Disk) (bytes : List ℕ) (next : ℕ)
    → initialize_and_scan disk.bytes ≡ ok (bytes, next)
    → open_or_create disk ≡ ok (opened bytes disk.next_sequence_hint next)
unfolding open_or_create
open-scanned disk bytes next e =
    ap (λ (r : Result (List ℕ × ℕ)). r >>= λ x. ok (opened x.0 disk.next_sequence_hint x.1)) e

-- Opening the files of a log that is torn inside the sequence of a further frame: the scan stops
-- before the torn bytes, and leaves them.
pub open-torn :
    (entries : List WalEntry) (tail : List ℕ) (hint : Option ℕ)
    → All Fits entries
    → length tail < 8
    → last_sequence_of 0 entries + 1 < 2 ^ 64
    → open_or_create
        (record { bytes = header ++ (frames entries ++ tail); next_sequence_hint = hint })
      ≡ ok (opened (header ++ (frames entries ++ tail)) hint (last_sequence_of 0 entries + 1))
open-torn entries tail hint h short bound = open-scanned _ _ _ (
    initialize_and_scan_full (frames entries ++ tail)
    ∙ ap (λ (r : Result ℕ). r >>= λ next. ok (header ++ (frames entries ++ tail), next))
        (scan_file-log entries tail h short bound))

-- A restart: the log that is opened on the files of a log is that log.
pub reopen-IsLog :
    (wal : Wal) (entries : List WalEntry) → IsLog wal entries → open_or_create wal.disk ≡ ok wal
reopen-IsLog wal entries l =
    let torn =
      open-torn entries [] wal.disk.next_sequence_hint l.fits (omega arith)
        (omega (arith, l.next, l.next_fits)) in
    let bytes : header ++ (frames entries ++ []) ≡ wal.disk.bytes =
      rw (frames_nil entries) (sym l.file) in
    let moved : open_or_create wal.disk
        ≡ ok (opened wal.disk.bytes wal.disk.next_sequence_hint (last_sequence_of 0 entries + 1)) =
      subst
        (λ (bs : List ℕ).
          open_or_create (record { bytes = bs; next_sequence_hint = wal.disk.next_sequence_hint })
          ≡ ok (opened bs wal.disk.next_sequence_hint (last_sequence_of 0 entries + 1)))
        bytes torn in
    moved ∙ ap (λ (n : ℕ). ok (record { disk = wal.disk; next_sequence = n })) (sym l.next)

-- An append adds the entry at the end, with the next sequence.
appended : Wal → List ℕ → Wal
unfolding frame
appended wal payload = record {
  disk = record wal.disk {
    bytes = wal.disk.bytes ++ frame (record { sequence = wal.next_sequence; payload = payload });
  };
  next_sequence = (wal.next_sequence + 1) % 2 ^ 64;
}

pub append-IsLog :
    (wal : Wal) (entries : List WalEntry) (payload : List ℕ)
    → IsLog wal entries
    → length payload ≤ u32_max
    → wal.next_sequence + 1 < 2 ^ 64
    → (wal' : Wal) × (append wal payload ≡ ok (wal.next_sequence, wal'))
      × IsLog wal' (entries ++ (record { sequence = wal.next_sequence; payload = payload } ∷ []))
      × (wal'.next_sequence ≡ wal.next_sequence + 1)
append-IsLog wal entries payload l small room =
    let entry : WalEntry = record { sequence = wal.next_sequence; payload = payload } in
    (
      appended wal payload,
      (unfold append appended in ground arith),
      record {
        file =
            unfold appended in
            (ap (λ bytes. bytes ++ frame entry) l.file
              ∙ append_assoc header (frames entries) (frame entry)
              ∙ ap (◌++◌ header) (sym (frames-append entries entry)));
        fits =
            All-append Fits entries (entry ∷ []) l.fits (((omega (arith, l.next_fits)), small), tt);
        next = unfold appended in omega (arith, last_sequence_of-append 0 entries entry, l.next);
        next_fits = unfold appended in omega arith;
      },
      (unfold appended in omega arith),
    )

pub truncate-IsLog :
    (wal : Wal) (entries : List WalEntry)
    → IsLog wal entries
    → IsLog (truncate_preserve_next_sequence wal) []
unfolding truncate_preserve_next_sequence to_le_bytes
truncate-IsLog wal entries l = record {
  file = refl;
  fits = tt;
  next = omega arith;
  next_fits = omega (arith, l.next_fits);
}
