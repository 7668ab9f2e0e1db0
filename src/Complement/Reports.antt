-- ===== src/Complement/Reports.antt =====
-- engine/src/complement.rs: `find_corruption` reports exactly the corrupted symbols.
use dna_db.Prelude.{
  ℕ, zero, suc, ◌+◌, ◌%◌, ◌<◌, ◌≡◌, refl, ◌&&◌, Option, none, some, List, [], ◌∷◌, get_elem?, find,
  find-append, or_else, arith, ◌==◌, nat_eq, if◌then◌else◌,
}
use dna_db.Model.{Codon, values}
use dna_db.Complement.{Corruption, check_codon, scan_pairs, find_corruption}

-- The first report at a place, if there is one.
abbrev pub report_at : ℕ → ℕ → List Corruption → Option Corruption
report_at i j = find (λ r. (r.codon_index == i) && (r.symbol_index == j))

-- What is to be reported of two symbols.
abbrev pub expected_report : ℕ → ℕ → ℕ → ℕ → Option Corruption
expected_report i j a b =
    if (a + b) % 256 == 3
    then none
    else some (record { codon_index = i; symbol_index = j; strand_value = a; complement_value = b })

check_codon_other : (i j k : ℕ) (s c : Codon) → i < k → report_at i j (check_codon k s c) ≡ none
unfolding check_codon
check_codon_other i j k s c h = ground arith

check_codon_later : (i j k : ℕ) (s c : Codon) → k < i → report_at i j (check_codon k s c) ≡ none
unfolding check_codon
check_codon_later i j k s c h = ground arith

scan_pairs_later :
    (i j k : ℕ) (ss cs : List Codon) → i < k → report_at i j (scan_pairs k ss cs) ≡ none
unfolding scan_pairs
scan_pairs_later i j k [] cs h = refl
scan_pairs_later i j k (s ∷ ss) [] h = refl
scan_pairs_later i j k (s ∷ ss) (c ∷ cs) h =
    rw (find-append _ (check_codon k s c) _, check_codon_other i j k s c h)
      (scan_pairs_later i j (suc k) ss cs (omega arith))

check_codon_here :
    (k j a b : ℕ) (s c : Codon)
    → get_elem? (values s) j ≡ some a
    → get_elem? (values c) j ≡ some b
    → report_at k j (check_codon k s c) ≡ expected_report k j a b
unfolding check_codon
check_codon_here k zero a b s c hs hc = ground arith
check_codon_here k (suc zero) a b s c hs hc = ground arith
check_codon_here k (suc (suc zero)) a b s c hs hc = ground arith
check_codon_here k (suc (suc (suc j))) a b s c hs hc = cc

expected-or_else :
    (k j a b : ℕ) (o : Option Corruption)
    → o ≡ none
    → or_else (expected_report k j a b) o ≡ expected_report k j a b
expected-or_else k j a b o e = ground arith

scan_pairs_at :
    (n j k i : ℕ) (ss cs : List Codon) {s c : Codon} {a b : ℕ}
    → k + i ≡ n
    → get_elem? ss i ≡ some s
    → get_elem? cs i ≡ some c
    → get_elem? (values s) j ≡ some a
    → get_elem? (values c) j ≡ some b
    → report_at n j (scan_pairs k ss cs) ≡ expected_report n j a b
unfolding scan_pairs
scan_pairs_at n j k i [] cs e hs hc ha hb = cc
scan_pairs_at n j k i (x ∷ ss) [] e hs hc ha hb = cc
scan_pairs_at n j k zero (x ∷ ss) (y ∷ cs) {s} {c} {a} {b} e hs hc ha hb =
    let here : k ≡ n = omega arith in
    rw
      (
        ← here,
        find-append _ (check_codon k x y) _,
        check_codon_here k j a b x y (ground arith) (ground arith),
      )
      (expected-or_else k j a b _ (scan_pairs_later k j (suc k) ss cs (omega arith)))
scan_pairs_at n j k (suc i) (x ∷ ss) (y ∷ cs) e hs hc ha hb =
    rw (find-append _ (check_codon k x y) _, check_codon_later n j k x y (omega arith))
      (scan_pairs_at n j (suc k) i ss cs (omega arith) hs hc ha hb)

-- Where both strands have a codon at `i`, the first report for symbol `j` of it holds the two symbols
-- when they do not add up to 3, and there is no such report when they do.
pub find_corruption_exact :
    (strand complement : List Codon) (i j : ℕ) {s c : Codon} {a b : ℕ}
    → get_elem? strand i ≡ some s
    → get_elem? complement i ≡ some c
    → get_elem? (values s) j ≡ some a
    → get_elem? (values c) j ≡ some b
    → report_at i j (find_corruption strand complement) ≡ expected_report i j a b
unfolding find_corruption
find_corruption_exact strand complement i j hs hc ha hb =
    scan_pairs_at i j 0 i strand complement (omega arith) hs hc ha hb
