-- ===== src/Storage/Frames.antt =====
-- engine/src/storage.rs: the scan of the strand file.
use dna_db.Prelude.{
  ℕ, zero, suc, ◌+◌, ◌≤◌, ◌<◌, ◌≡◌, refl, ap, ◌∙◌, List, [], ◌∷◌, ◌++◌, length, max, All, arith,
  length-append, drop-append, to_le_bytes,
}
use mathlib.Core.List.{append_assoc}
use dna_db.Prelude.Results.{ok}
use dna_db.Model.{Strand}
use dna_db.Codec.{Bincode, frame_header}
use dna_db.Codec.RoundTrip.{Reads, frame_of, decode_with_len-encode}
use dna_db.Storage.{scan_strands_from, scan_strands_tail}
use dna_db.Storage.Maps.{zeros}

-- A strand and the bytes that bincode writes of it.
abbrev pub Stored : Type 0
Stored = Strand × List ℕ

abbrev pub frames : List Stored → List ℕ
frames [] = []
frames (s ∷ rest) = frame_of s.1 ++ frames rest

abbrev pub max_version : ℕ → List Stored → ℕ
max_version m [] = m
max_version m (s ∷ rest) = max_version (max m s.0.version) rest

abbrev pub IsReadable : Bincode → Stored → Type 0
IsReadable bincode s = Reads bincode s.0 s.1

length-frame_of : (payload : List ℕ) → length (frame_of payload) ≡ 6 + length payload
unfolding to_le_bytes
length-frame_of payload = omega (arith, length-append frame_header payload)

scan_strands-zeros :
    (bincode : Bincode) (fuel n pos m : ℕ)
    → scan_strands_from bincode (suc fuel) (zeros n) pos m ≡ ok (pos, m)
unfolding scan_strands_from zeros
scan_strands-zeros bincode fuel zero pos m = refl
scan_strands-zeros bincode fuel (suc zero) pos m = refl
scan_strands-zeros bincode fuel (suc (suc zero)) pos m = refl
scan_strands-zeros bincode fuel (suc (suc (suc zero))) pos m = refl
scan_strands-zeros bincode fuel (suc (suc (suc (suc n)))) pos m = ground arith

scan_strands-frame :
    (bincode : Bincode) (fuel pos m : ℕ) (s : Stored) (rest : List ℕ)
    → IsReadable bincode s
    → scan_strands_from bincode (suc fuel) (frame_of s.1 ++ rest) pos m
      ≡ scan_strands_from bincode fuel rest (pos + length (frame_of s.1)) (max m s.0.version)
unfolding scan_strands_from to_le_bytes
scan_strands-frame bincode fuel pos m s rest r =
    ground
      (arith, (decode_with_len-encode bincode s.0 s.1 rest r).1, drop-append (frame_of s.1) rest)

-- Each frame is found, and the zeros end the scan.
scan_strands-frames :
    (bincode : Bincode) (fuel n pos m : ℕ) (stored : List Stored)
    → All (IsReadable bincode) stored
    → length stored < fuel
    → scan_strands_from bincode fuel (frames stored ++ zeros n) pos m
      ≡ ok (pos + length (frames stored), max_version m stored)
scan_strands-frames bincode zero n pos m stored r f = absurd (omega arith)
scan_strands-frames bincode (suc fuel) n pos m [] r f =
    scan_strands-zeros bincode fuel n pos m ∙ ap (λ p. ok (p, m)) (omega arith)
scan_strands-frames bincode (suc fuel) n pos m (s ∷ rest) r f =
    rw
      (
        append_assoc (frame_of s.1) (frames rest) (zeros n),
        scan_strands-frame bincode fuel pos m s (frames rest ++ zeros n) r.0,
        scan_strands-frames bincode fuel n (pos + length (frame_of s.1)) (max m s.0.version) rest
            r.1 (omega arith),
      )
      (ap (λ p. ok (p, max_version (max m s.0.version) rest))
        (omega (arith, length-append (frame_of s.1) (frames rest))))

pub frames_long : (stored : List Stored) → length stored ≤ length (frames stored)
frames_long [] = omega arith
frames_long (s ∷ rest) =
    omega (arith, frames_long rest, length-append (frame_of s.1) (frames rest), length-frame_of s.1)

pub scan_strands_tail-frames :
    (bincode : Bincode) (n : ℕ) (stored : List Stored)
    → All (IsReadable bincode) stored
    → scan_strands_tail bincode (frames stored ++ zeros n)
      ≡ ok (length (frames stored), max_version 0 stored)
unfolding scan_strands_tail
scan_strands_tail-frames bincode n stored r =
    scan_strands-frames bincode (suc (length (frames stored ++ zeros n))) n 0 0 stored r
      (omega (arith, frames_long stored, length-append (frames stored) (zeros n)))
    ∙ ap (λ p. ok (p, max_version 0 stored)) (omega arith)
