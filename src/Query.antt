-- ===== src/Query.antt =====
-- engine/src/query: the query as it is written (ast.rs), the pattern that it is compiled to (guide.rs,
-- compile.rs), and the filter by the introns of a strand (fast_match.rs). What bincode writes of a
-- literal is a parameter.
pub mod Vector
pub mod Index
pub mod Compile
mod Tests
use dna_db.Prelude.{
  ℕ, String, Bool, true, false, Option, none, some, List, [], ◌∷◌, ◌++◌, ◌&&◌, ◌||◌, any, all, ◌==◌,
  nat_eq, string_eq, if◌then◌else◌,
}
use mathlib.Core.Option
use Prim.Native.String.{◌++◌ as str_append}
use dna_db.Prelude.Results.{Result, ok, err, ◌>>=◌, ok_or}
use dna_db.Model.{Strand, Intron}
use dna_db.Encoding.{Cpu, EncodedPayload, encode_bytes_to_codons}
use dna_db.Processor.{fnv1a64}

-- An `i64` and an `f64` are their 64 bits.
pub data QueryLiteral : Type 0 where
  string_literal : String → QueryLiteral
  i64_literal u64_literal f64_literal : ℕ → QueryLiteral
  bool_literal : Bool → QueryLiteral

pub data WhereOp : Type 0 where
  eq ne gt gte lt lte like : WhereOp

pub data SortDirection : Type 0 where
  asc desc : SortDirection

pub record WhereClause : Type 0 where
  pub field : String
  pub op : WhereOp
  pub value : QueryLiteral

pub record OrderByClause : Type 0 where
  pub field : String
  pub direction : SortDirection

pub record QueryAst : Type 0 where
  pub collection : String
  pub wheres : List WhereClause
  pub includes : List String
  pub order_by : Option OrderByClause
  pub limit : Option ℕ

-- QueryAst::new and the methods that add to it
unfoldable pub new : String → QueryAst
new collection = record {
  collection = collection;
  wheres = [];
  includes = [];
  order_by = none;
  limit = none;
}

unfoldable pub where_clause : QueryAst → String → WhereOp → QueryLiteral → QueryAst
where_clause ast field op value = record ast {
  wheres = ast.wheres ++ (record { field = field; op = op; value = value } ∷ []);
}

unfoldable pub include : QueryAst → String → QueryAst
include ast path = record ast { includes = ast.includes ++ (path ∷ []) }

unfoldable pub order_by_field : QueryAst → String → SortDirection → QueryAst
order_by_field ast field direction = record ast {
  order_by = some (record { field = field; direction = direction });
}

unfoldable pub limit_to : QueryAst → ℕ → QueryAst
limit_to ast n = record ast { limit = some n }

pub data RangeOp : Type 0 where
  greater_than greater_or_equal less_than less_or_equal not_equal : RangeOp

pub data Clause : Type 0 where
  exact_match : String → List ℕ → EncodedPayload → Clause
  range_match : String → RangeOp → List ℕ → EncodedPayload → Clause
  like_pattern : String → String → Clause

pub record GuidePattern : Type 0 where
  pub collection : String
  pub clauses : List Clause
  pub includes : List String
  pub overlay : Option String
  pub order_by : Option (String × SortDirection)
  pub limit : Option ℕ

-- `panicked` is no value of the source: the encoder's panic.
pub data CompileError : Type 0 where
  empty_collection serialize panicked : CompileError
  unsupported_operator : String → CompileError

module _ (cpu : Cpu) (serialize_literal : QueryLiteral → Option (List ℕ)) where
  -- The operand of a clause: the literal's bytes and their codons.
  unfoldable pub operand : QueryLiteral → Result CompileError (List ℕ × EncodedPayload)
  operand value = do
    wire ← ok_or (serialize_literal value) serialize
    operand_codons ← ok_or (encode_bytes_to_codons cpu wire) panicked
    ok (wire, operand_codons)

  unfoldable pub range_clause : String → RangeOp → QueryLiteral → Result CompileError Clause
  unfolding operand
  range_clause field operator value = do
    (wire, codons) ← operand value
    ok (range_match field operator wire codons)

  -- The match on the value of a LIKE.
  abbrev pub like_clause : String → QueryLiteral → Result CompileError Clause
  like_clause field (string_literal s) = ok (like_pattern field s)
  like_clause field _ =
      err (unsupported_operator (str_append field " (LIKE requires string literal)"))

  unfoldable pub compile_clause : WhereClause → Result CompileError Clause
  unfolding operand range_clause
  compile_clause w = elim w.op [
    | eq ↦ (do (wire, codons) ← operand w.value; ok (exact_match w.field wire codons))
    | ne ↦ range_clause w.field not_equal w.value
    | gt ↦ range_clause w.field greater_than w.value
    | gte ↦ range_clause w.field greater_or_equal w.value
    | lt ↦ range_clause w.field less_than w.value
    | lte ↦ range_clause w.field less_or_equal w.value
    | like ↦ like_clause w.field w.value
  ]

  -- The loop over the wheres.
  unfoldable pub compile_clauses : List WhereClause → Result CompileError (List Clause)
  unfolding compile_clause
  compile_clauses [] = ok []
  compile_clauses (w ∷ wheres) = do
    clause ← compile_clause w
    clauses ← compile_clauses wheres
    ok (clause ∷ clauses)

  unfoldable pub compile_query : QueryAst → Option String → Result CompileError GuidePattern
  unfolding compile_clauses
  compile_query ast overlay = if ast.collection == "" then err empty_collection else (do
    clauses ← compile_clauses ast.wheres
    ok (record {
      collection = ast.collection;
      clauses = clauses;
      includes = ast.includes;
      overlay = overlay;
      order_by = Option.map (λ (o : OrderByClause). (o.field, o.direction)) ast.order_by;
      limit = ast.limit;
    }))

unfoldable pub intron_hash_matches_field : String → List ℕ → List Intron → Bool
intron_hash_matches_field field wire_for_hash introns =
    let h = fnv1a64 wire_for_hash in
    any (λ (i : Intron). (i.field_name == field) && (i.value_hash == h)) introns

unfoldable pub clause_introns_fast_match : Clause → List Intron → Bool
unfolding intron_hash_matches_field
clause_introns_fast_match (exact_match field wire codons) introns =
    intron_hash_matches_field field wire introns
clause_introns_fast_match (range_match field operator wire codons) introns =
    any (λ (i : Intron). i.field_name == field) introns
clause_introns_fast_match (like_pattern field pattern') introns =
    any (λ (i : Intron). i.field_name == field) introns

unfoldable pub guide_introns_fast_match : GuidePattern → List Intron → Bool
unfolding clause_introns_fast_match
guide_introns_fast_match pattern' introns =
    all (λ c. clause_introns_fast_match c introns) pattern'.clauses
