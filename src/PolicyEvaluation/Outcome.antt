-- ===== src/PolicyEvaluation/Outcome.antt =====
-- What each decision of `deriveDecision` means for the recorded facts.
use verglos_cli.Prelude.{
  ◌≡◌, refl, ◌≢◌, ◌↔◌, ◌⊎◌, inl, inr, Bool, true, false, not, ◌||◌, List, [], ◌∷◌, arith,
  if◌then◌else◌, any, All,
}
use verglos_cli.Text.Sorting.{sort_by, any-sort_by}
use verglos_cli.PolicyEvaluation.{
  MatchStatus, matched, mismatched, unresolved, satisfied, PolicyCheck, PolicyEvaluationInput,
  Decision, pass, incomplete,
}
use verglos_cli.PolicyEvaluation.Derive.{identity_tally, derive_decision, policy_decision_exit_code}
use verglos_cli.PolicyEvaluation.Validate.{is_matched}
use verglos_cli.PolicyEvaluation.Facts.{
  Withholds, Blocks, Reviews, Some, withholds, blocks, reviews, withholds_iff, blocks_iff,
  reviews_iff, satisfied_iff, tally_checks-Flags, any-Some, Some-any, any_none, none_any,
}

-- The meaning of each decision.
abbrev pub IsDecided : PolicyEvaluationInput → Decision → Type 0
IsDecided v pass = (v.subject_match.status ≡ matched) × All (λ c. c.status ≡ satisfied) v.checks
IsDecided v incomplete = (v.subject_match.status ≢ matched) ⊎ Some Withholds v.checks
IsDecided v Decision.block =
    (v.subject_match.status ≡ matched) × All (λ c. ¬ Withholds c) v.checks × Some Blocks v.checks
IsDecided v Decision.review =
    (v.subject_match.status ≡ matched)
    × All (λ c. ¬ Withholds c) v.checks
    × All (λ c. ¬ Blocks c) v.checks
    × Some Reviews v.checks

All-satisfied_iff :
    (cs : List PolicyCheck)
    → All (λ c. c.status ≡ satisfied) cs
      ↔ ((any withholds cs ≡ false) × (any blocks cs ≡ false) × (any reviews cs ≡ false))
All-satisfied_iff [] = ground arith
All-satisfied_iff (c ∷ cs) = ground (arith, satisfied_iff c, All-satisfied_iff cs)

-- The decision from the three tests over the checks as they were given.
pub decision_from : Bool → Bool → Bool → Bool → Decision
decision_from named w b r =
    if not named || w
    then incomplete
    else if b
    then Decision.block
    else if r
    then Decision.review
    else pass

pub derive-decision_from :
    (v : PolicyEvaluationInput)
    → (derive_decision v).decision
      ≡ decision_from
          (is_matched v.subject_match.status)
          (any withholds v.checks)
          (any blocks v.checks)
          (any reviews v.checks)
unfolding derive_decision decision_from identity_tally
derive-decision_from v = ground (
  arith,
  tally_checks-Flags (sort_by PolicyCheck.id v.checks) (identity_tally v.subject_match),
  any-sort_by PolicyCheck.id withholds v.checks,
  any-sort_by PolicyCheck.id blocks v.checks,
  any-sort_by PolicyCheck.id reviews v.checks,
)

module _ (m w b r : Bool) where
  pass_bits :
      (decision_from m w b r ≡ pass) ↔ ((m ≡ true) × (w ≡ false) × (b ≡ false) × (r ≡ false))
  unfolding decision_from
  pass_bits = ground arith

  incomplete_bits : (decision_from m w b r ≡ incomplete) ↔ ((m ≡ false) ⊎ (w ≡ true))
  unfolding decision_from
  incomplete_bits = ground arith

  block_bits : (decision_from m w b r ≡ Decision.block) ↔ ((m ≡ true) × (w ≡ false) × (b ≡ true))
  unfolding decision_from
  block_bits = ground arith

  review_bits :
      (decision_from m w b r ≡ Decision.review)
      ↔ ((m ≡ true) × (w ≡ false) × (b ≡ false) × (r ≡ true))
  unfolding decision_from
  review_bits = ground arith

matched_iff : (s : MatchStatus) → (is_matched s ≡ true) ↔ (s ≡ matched)
matched_iff s = ground arith

pub unmatched_iff : (s : MatchStatus) → (is_matched s ≡ false) ↔ (s ≢ matched)
unmatched_iff matched = ((λ e. cc), λ n. absurd (n refl))
unmatched_iff mismatched = ((λ e. cc), λ n. refl)
unmatched_iff unresolved = ((λ e. cc), λ n. refl)

module _ (v : PolicyEvaluationInput) where
  m : Bool
  m = is_matched v.subject_match.status

  w : Bool
  w = any withholds v.checks

  b : Bool
  b = any blocks v.checks

  r : Bool
  r = any reviews v.checks

  named : (m ≡ true) ↔ (v.subject_match.status ≡ matched)
  unfolding m
  named = matched_iff v.subject_match.status

  none-Withholds : (w ≡ false) ↔ All (λ c. ¬ Withholds c) v.checks
  unfolding w
  none-Withholds = (
    any_none withholds Withholds withholds_iff v.checks,
    none_any withholds Withholds withholds_iff v.checks,
  )

  none-Blocks : (b ≡ false) ↔ All (λ c. ¬ Blocks c) v.checks
  unfolding b
  none-Blocks =
      (any_none blocks Blocks blocks_iff v.checks, none_any blocks Blocks blocks_iff v.checks)

  decision_from-IsDecided : (d : Decision) → (decision_from m w b r ≡ d) ↔ IsDecided v d
  unfolding m w b r
  decision_from-IsDecided pass = (
    (λ e.
        let bits = (pass_bits m w b r).0 e in
        (named.0 bits.0, (All-satisfied_iff v.checks).1 (bits.1, bits.2, bits.3))),
    λ (n, s).
        let none = (All-satisfied_iff v.checks).0 s in
        (pass_bits m w b r).1 (named.1 n, none.0, none.1, none.2),
  )
  decision_from-IsDecided incomplete = (
    (λ e. elim ((incomplete_bits m w b r).0 e) [
      | inl other ↦ inl ((unmatched_iff v.subject_match.status).0 other)
      | inr found ↦ inr (any-Some withholds Withholds withholds_iff v.checks found)
    ]),
    elim [
      | inl other ↦
          (incomplete_bits m w b r).1 (inl ((unmatched_iff v.subject_match.status).1 other))
      | inr found ↦
          (incomplete_bits m w b r).1
            (inr (Some-any withholds Withholds withholds_iff v.checks found))
    ],
  )
  decision_from-IsDecided Decision.block = (
    (λ e.
        let bits = (block_bits m w b r).0 e in
        (
          named.0 bits.0,
          none-Withholds.0 bits.1,
          any-Some blocks Blocks blocks_iff v.checks bits.2,
        )),
    λ (n, s, found).
        (block_bits m w b r).1
          (named.1 n, none-Withholds.1 s, Some-any blocks Blocks blocks_iff v.checks found),
  )
  decision_from-IsDecided Decision.review = (
    (λ e.
        let bits = (review_bits m w b r).0 e in
        (
          named.0 bits.0,
          none-Withholds.0 bits.1,
          none-Blocks.0 bits.2,
          any-Some reviews Reviews reviews_iff v.checks bits.3,
        )),
    λ (n, s, k, found). (review_bits m w b r).1 (
      named.1 n,
      none-Withholds.1 s,
      none-Blocks.1 k,
      Some-any reviews Reviews reviews_iff v.checks found,
    ),
  )

-- The decision is the one whose meaning the facts have, and no other: PASS where the subject is
-- matched and every check is satisfied; INCOMPLETE where the subject is not matched or a required
-- check has no usable result; otherwise BLOCK where a failed check blocks, and REVIEW where none
-- does and a failed check asks for review or an advisory check has no usable result.
pub derive-decision_iff :
    (v : PolicyEvaluationInput) (d : Decision) → ((derive_decision v).decision ≡ d) ↔ IsDecided v d
unfolding m w b r
derive-decision_iff v d = rw (derive-decision_from v) (decision_from-IsDecided v d)

-- The exit code tells the decision.
pub derive-exit_code :
    (v : PolicyEvaluationInput)
    → (derive_decision v).exit_code ≡ policy_decision_exit_code (derive_decision v).decision
unfolding derive_decision
derive-exit_code v = refl
