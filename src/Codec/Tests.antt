-- ===== src/Codec/Tests.antt =====
-- The theorems on engine/src/codec.rs at a concrete strand.
use dna_db.Prelude.{◌≡◌, refl, true, some, [], ◌∷◌, ◌++◌, length}
use dna_db.Prelude.Results.{ok}
use dna_db.Model.{Strand, manual}
use dna_db.Codec.{encode_strand, decode_strand_with_len}
use dna_db.Codec.RoundTrip.{frame_of, decode_with_len-encode}
use dna_db.Codec.Sample.{sample, sample-Reads}

abbrev plain : Strand
plain = record {
  signature = [];
  collection_id = 1;
  codons = [];
  complement = [];
  introns = [];
  telomere = record { count = 0; immortal = true; last_refresh = 0; refresh_policy = manual };
  epigenetic_tags = [];
  version = 3;
  created_at = 0;
  updated_at = 0;
}

decode_with_len-encode_example :
    (encode_strand (sample (λ v. some plain)) plain ≡ ok (frame_of (3 ∷ [])))
    × (decode_strand_with_len (sample (λ v. some plain)) (frame_of (3 ∷ []) ++ (9 ∷ []))
        ≡ ok (plain, length (frame_of (3 ∷ []))))
decode_with_len-encode_example =
    decode_with_len-encode (sample (λ v. some plain)) plain (3 ∷ []) (9 ∷ [])
      (sample-Reads (λ v. some plain) plain refl)
