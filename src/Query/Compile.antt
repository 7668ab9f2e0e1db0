-- ===== src/Query/Compile.antt =====
-- engine/src/query/compile.rs and fast_match.rs: the clauses of a query, and what their prefilter keeps.
use dna_db.Prelude.{
  ℕ, suc, ◌≡◌, sym, subst, ap, ◌∙◌, true, Option, some, List, [], ◌∷◌, length, arith, nat_eq,
  string_eq, eq_self, Option-cases, inl, inr,
}
use dna_db.Prelude.Results.{ok, >>=-eq-ok}
use dna_db.Model.{Strand, Codon}
use dna_db.Complement.{generate_complement}
use dna_db.Encoding.{Cpu, EncodedPayload, encode_bytes_to_codons}
use dna_db.Processor.{strand_from_wal_payload, woven, fnv1a64}
use dna_db.Query.{
  QueryLiteral, WhereClause, Clause, exact_match, compile_clause, compile_clauses,
  clause_introns_fast_match,
}

woven_passes :
    (now collection_id sequence : ℕ) (raw_payload : List ℕ) (codons complement : List Codon)
    (operand : EncodedPayload)
    → clause_introns_fast_match
        (exact_match "_payload" raw_payload operand)
        (woven now collection_id sequence raw_payload codons complement).introns
      ≡ true
unfolding clause_introns_fast_match woven
woven_passes now collection_id sequence raw_payload codons complement operand =
    ground (arith, eq_self (fnv1a64 raw_payload))

made-woven :
    (cpu : Cpu) (now collection_id sequence : ℕ) (raw_payload : List ℕ) (strand : Strand)
    → strand_from_wal_payload cpu now collection_id sequence raw_payload ≡ some strand
    → (codons : List Codon) × (complement : List Codon) × (woven now collection_id sequence
          raw_payload codons complement
        ≡ strand)
unfolding strand_from_wal_payload
made-woven cpu now collection_id sequence raw_payload strand made =
    elim (Option-cases (encode_bytes_to_codons cpu raw_payload)) [
      | inl gone ↦ absurd (ground (arith, gone, made))
      | inr (encoded, q) ↦ elim (Option-cases (generate_complement encoded.codons)) [
        | inl gone ↦ absurd (ground (arith, q, gone, made))
        | inr (complement, r) ↦ (encoded.codons, complement, ground (arith, q, r, made))
      ]
    ]

-- The prefilter keeps the strand that the processor makes of an entry, for an exact clause on `_payload`
-- with the bytes of the entry.
pub payload_passes :
    (cpu : Cpu) (now collection_id sequence : ℕ) (raw_payload : List ℕ) (strand : Strand)
    (operand : EncodedPayload)
    → strand_from_wal_payload cpu now collection_id sequence raw_payload ≡ some strand
    → clause_introns_fast_match (exact_match "_payload" raw_payload operand) strand.introns ≡ true
payload_passes cpu now collection_id sequence raw_payload strand operand made =
    let (codons, complement, same) =
      made-woven cpu now collection_id sequence raw_payload strand made in
    subst
      (λ (s : Strand).
        clause_introns_fast_match (exact_match "_payload" raw_payload operand) s.introns ≡ true)
      same (woven_passes now collection_id sequence raw_payload codons complement operand)

-- Every where of a query is compiled to one clause, in order.
pub compile_clauses-length :
    (cpu : Cpu) (serialize_literal : QueryLiteral → Option (List ℕ)) (wheres : List WhereClause)
    (clauses : List Clause)
    → compile_clauses cpu serialize_literal wheres ≡ ok clauses
    → length clauses ≡ length wheres
unfolding compile_clauses
compile_clauses-length cpu serialize_literal [] clauses e =
    let same : [] ≡ clauses = cc e in ap length (sym same)
compile_clauses-length cpu serialize_literal (w ∷ wheres) clauses e =
    let (clause, q, e1) = >>=-eq-ok (compile_clause cpu serialize_literal w) _ e in
    let (rest, r, e2) = >>=-eq-ok (compile_clauses cpu serialize_literal wheres) _ e1 in
    let same : clause ∷ rest ≡ clauses = cc e2 in
    ap length (sym same) ∙ ap suc (compile_clauses-length cpu serialize_literal wheres rest r)
