-- ===== src/Baseline.antt =====
-- packages/shared/src/baseline.ts and baseline-compare.ts: the findings that a team has accepted, and
-- what a run has beyond them.
pub mod Laws
mod Tests
use verglos_cli.Prelude.{
  ℕ, Bool, false, not, ◌&&◌, ◌||◌, Option, none, some, List, [], ◌∷◌, ltb, leb, if◌then◌else◌,
  length, any, all, filter,
}
use verglos_cli.Text.{Text, text_eq}
use verglos_cli.Text.Sets.{has, set_of, repeats}
use verglos_cli.Text.Sorting.{sort_by}
use verglos_cli.Formats.{is_sha256_ref, stable_id, subject_id, length_in}
use verglos_cli.Contracts.{
  Time, no_later, Parsed, ok, invalid, ◌>>=◌, accept_if_clean, raise, size_in,
}

-- BaselineDocumentSchema; the literals `schemaId` and `schemaVersion` are left out.
pub record BaselineDocument : Type 0 where
  pub subject_id : Text
  pub policy_id : Text
  pub policy_version : Text
  pub policy_digest : Text
  pub accepted_fingerprints : List Text
  pub created_at : Time
  pub expires_at : Option Time

pub data BaselineError : Type 0 where
  malformed repeated_fingerprints expiry_not_after_creation oversized : BaselineError
  malformed_query too_many_fingerprints malformed_fingerprint malformed_instant : BaselineError

abbrev expires_too_early : Time → Option Time → Bool
expires_too_early created none = false
expires_too_early created (some expires) = no_later expires created

unfoldable pub baseline_issues : BaselineDocument → List BaselineError
baseline_issues b = raise (
    (
      not (
          subject_id b.subject_id
          && (stable_id b.policy_id
              && (length_in 1 64 b.policy_version
                  && (is_sha256_ref b.policy_digest
                      && (size_in 0 10000 b.accepted_fingerprints
                          && all is_sha256_ref b.accepted_fingerprints))))),
      malformed,
    )
    ∷ (repeats b.accepted_fingerprints, repeated_fingerprints)
    ∷ (expires_too_early b.created_at b.expires_at, expiry_not_after_creation)
    ∷ [])

pub data BaselineStatus : Type 0 where
  matched mismatched stale : BaselineStatus

abbrev pub is_over : Time → Option Time → Bool
is_over at none = false
is_over at (some expires) = no_later expires at

-- BaselineComparison
pub record BaselineComparison : Type 0 where
  pub baseline_status : BaselineStatus
  pub new_fingerprints : List Text
  pub accepted_fingerprints : List Text

-- The input of `compareToBaseline`; none is an instant that is not read.
pub record Comparing : Type 0 where
  pub baseline : BaselineDocument
  pub current_fingerprints : List Text
  pub subject_id : Text
  pub policy_digest : Text
  pub evaluated_at : Time

-- The distinct fingerprints of the run, in order.
abbrev pub current : List Text → List Text
current fs = sort_by (λ f. f) (set_of fs)

-- The length in bytes of a baseline's canonical text, which `parseBaseline` bounds; where there is no
-- such text the bound is passed.
module _ (canonical_bytes : BaselineDocument → Option ℕ) where
  abbrev is_too_large : Option ℕ → Bool
  is_too_large none = false
  is_too_large (some n) = ltb 4194304 n

  -- `parseBaseline`
  unfoldable pub parse_baseline : BaselineDocument → Parsed BaselineError BaselineDocument
  parse_baseline b =
      if is_too_large (canonical_bytes b)
      then invalid (oversized ∷ [])
      else accept_if_clean (baseline_issues b) b

  -- `classifyBaseline`
  unfoldable pub classify_baseline :
      BaselineDocument → Text → Text → Time → Parsed BaselineError BaselineStatus
  classify_baseline baseline subject digest at = do
    parsed ← parse_baseline baseline
    if not (subject_id subject) || (text_eq parsed.subject_id subject && not (is_sha256_ref digest))
        then invalid (malformed_query ∷ [])
        else if not (text_eq parsed.subject_id subject) || not (text_eq parsed.policy_digest digest)
        then ok mismatched
        else ok (if is_over at parsed.expires_at then stale else matched)

  abbrev pub at_instant : Comparing → Time → Parsed BaselineError BaselineComparison
  at_instant c none = invalid (malformed_instant ∷ [])
  at_instant c (some at) = do
    status ← classify_baseline c.baseline c.subject_id c.policy_digest (some at)
    ok (record {
      baseline_status = status;
      new_fingerprints =
          filter (λ f. not (has f c.baseline.accepted_fingerprints))
            (current c.current_fingerprints);
      accepted_fingerprints =
          filter (λ f. has f c.baseline.accepted_fingerprints) (current c.current_fingerprints);
    })

  -- `compareToBaseline`
  unfoldable pub compare_to_baseline : Comparing → Parsed BaselineError BaselineComparison
  compare_to_baseline c =
      if ltb 20000 (length c.current_fingerprints)
      then invalid (too_many_fingerprints ∷ [])
      else if any (λ f. not (is_sha256_ref f)) c.current_fingerprints
      then invalid (malformed_fingerprint ∷ [])
      else at_instant c c.evaluated_at
