-- ===== src/Processor/Strands.antt =====
-- engine/src/processor.rs: the strand of an entry, with its complement.
use dna_db.Prelude.{
  ℕ, ◌*◌, ◌^◌, ◌<◌, ◌≡◌, refl, sym, ap, ◌∙◌, true, some, List, length, All, arith, from_le_bytes,
  from_le_bytes-to_le_bytes,
}
use dna_db.Model.{Strand}
use dna_db.Complement.{is_valid_pairing}
use dna_db.Complement.Pairing.{is_valid_pairing_iff, generate_complement_involutive}
use dna_db.Encoding.{Cpu, decode_codons_to_bytes, ok}
use dna_db.Encoding.RoundTrip.{IsByte, decode-encode}
use dna_db.Encoding.Base4.{encode_bytes-IsBase4}
use dna_db.Processor.{strand_from_wal_payload, woven, strand_signature}

-- Where the entry's symbols fit a `usize`, its strand is made without a panic on every machine: its
-- codons decode to the bytes of the entry, its complement pairs with them, and its signature and its
-- version are the sequence of the entry.
pub strand_from_wal_payload_lem :
    (cpu : Cpu) (now collection_id sequence : ℕ) (raw_payload : List ℕ)
    → All IsByte raw_payload
    → length raw_payload * 4 < 2 ^ 64
    → sequence < 2 ^ 64
    → (strand : Strand) × (strand_from_wal_payload cpu now collection_id sequence raw_payload
        ≡ some strand)
      × (decode_codons_to_bytes
            (record { codons = strand.codons; original_len = length raw_payload })
          ≡ ok raw_payload)
      × (is_valid_pairing strand.codons strand.complement ≡ true)
      × (from_le_bytes strand.signature ≡ sequence)
      × (strand.version ≡ sequence)
strand_from_wal_payload_lem cpu now collection_id sequence raw_payload bytes small fits =
    let (payload, encoded, decoded) = decode-encode cpu raw_payload bytes small in
    let (base4, original) = encode_bytes-IsBase4 cpu raw_payload payload encoded in
    let (complement, made, complement_base4, same_length, back) =
      generate_complement_involutive payload.codons base4 in
    (
      woven now collection_id sequence raw_payload payload.codons complement,
      (unfold strand_from_wal_payload in ground (arith, encoded, made)),
      (unfold woven in
          (ap (λ n. decode_codons_to_bytes (record { codons = payload.codons; original_len = n }))
              (sym original)
            ∙ decoded)),
      (unfold woven in
          (is_valid_pairing_iff payload.codons complement base4 complement_base4).1 made),
      (unfold woven strand_signature in from_le_bytes-to_le_bytes 8 sequence fits),
      (unfold woven in refl),
    )
