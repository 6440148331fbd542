-- ===== src/Baseline/Laws.antt =====
-- packages/shared/src/baseline-compare.ts: the comparison sorts a run's findings into the accepted
-- ones and the new ones.
use verglos_cli.Prelude.{
  ℕ, ◌≤◌, ◌≡◌, ◌↔◌, true, not, ◌||◌, Option, some, if◌then◌else◌, length, filter, In, All,
}
use verglos_cli.Text.{Text, text_eq}
use verglos_cli.Text.Sets.{has}
use verglos_cli.Contracts.{Instant, Time, ok}
use verglos_cli.Contracts.Laws.{Before, IsReadIfPresent}
use verglos_cli.Formats.{is_sha256_ref, subject_id}
use verglos_cli.Baseline.{
  BaselineDocument, BaselineStatus, matched, mismatched, stale, BaselineComparison, Comparing,
  is_over, parse_baseline, current,
}

-- An acceptance still stands at an instant: it never expires, or later.
abbrev pub Stands : Instant → Option Time → Type 0
Stands at e = (expires : Time) → e ≡ some expires → Before (some at) expires

-- What a comparison at an instant promises of its result.
pub record Splits (c : Comparing) (at : Instant) (r : BaselineComparison) : Type 0 where
  pub new_iff :
      (f : Text)
      → In f r.new_fingerprints
        ↔ (In f c.current_fingerprints × ¬ In f c.baseline.accepted_fingerprints)
  pub accepted_iff :
      (f : Text)
      → In f r.accepted_fingerprints
        ↔ (In f c.current_fingerprints × In f c.baseline.accepted_fingerprints)
  pub mismatched_iff :
      (r.baseline_status ≡ mismatched)
      ↔ ¬ ((c.baseline.subject_id ≡ c.subject_id) × (c.baseline.policy_digest ≡ c.policy_digest))
  pub matched_iff : (r.baseline_status ≡ matched) ↔ (
      (c.baseline.subject_id ≡ c.subject_id)
      × ((c.baseline.policy_digest ≡ c.policy_digest) × Stands at c.baseline.expires_at))

-- The status of a baseline for a subject and a policy.
abbrev verdict : BaselineDocument → Text → Text → Instant → BaselineStatus
verdict b subject digest at =
    if not (text_eq b.subject_id subject) || not (text_eq b.policy_digest digest)
    then mismatched
    else (if is_over (some at) b.expires_at then stale else matched)

abbrev result : Comparing → Instant → BaselineComparison
result c at = record {
  baseline_status = verdict c.baseline c.subject_id c.policy_digest at;
  new_fingerprints =
      filter (λ f. not (has f c.baseline.accepted_fingerprints)) (current c.current_fingerprints);
  accepted_fingerprints =
      filter (λ f. has f c.baseline.accepted_fingerprints) (current c.current_fingerprints);
}

module _ (canonical_bytes : BaselineDocument → Option ℕ) where
  -- The conditions under which a comparison at an instant is made.
  pub record IsComparable (c : Comparing) (at : Instant) : Type 0 where
    pub count : length c.current_fingerprints ≤ 20000
    pub formats : All (λ f. is_sha256_ref f ≡ true) c.current_fingerprints
    pub evaluated : c.evaluated_at ≡ some at
    pub accepted : parse_baseline canonical_bytes c.baseline ≡ ok c.baseline
    pub expiry_read : IsReadIfPresent c.baseline.expires_at
    pub subject_format : subject_id c.subject_id ≡ true
    pub digest_format : is_sha256_ref c.policy_digest ≡ true
