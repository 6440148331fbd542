-- ===== src/Baseline/Tests.antt =====
-- Example runs on the baselines of packages/shared/src/baseline.ts and baseline-compare.ts.
use verglos_cli.Prelude.{ℕ, ◌≡◌, refl, Option, none, some, [], ◌∷◌, ◌++◌}
use verglos_cli.Text.{Text, codes}
use verglos_cli.Text.Sets.{repeats}
use verglos_cli.Formats.{stable_id, subject_id}
use verglos_cli.Contracts.{ok, invalid}
use verglos_cli.Baseline.{
  BaselineDocument, malformed_query, matched, mismatched, stale, BaselineComparison, Comparing,
  baseline_issues, parse_baseline, classify_baseline, compare_to_baseline,
}

abbrev digest_of : Text → Text
digest_of c =
    codes "sha256:" ++ (c ++ codes "00000000000000000000000000000000000000000000000000000000000000")

abbrev subject : Text
subject = codes "urn:verglos:subject:package:" ++ digest_of (codes "5b")

abbrev team : BaselineDocument
team = record {
  subject_id = subject;
  policy_id = codes "policy.team";
  policy_version = codes "1.0.0";
  policy_digest = digest_of (codes "0a");
  accepted_fingerprints = digest_of (codes "c1") ∷ digest_of (codes "c2") ∷ [];
  created_at = some 100;
  expires_at = some (some 200);
}

abbrev run_at : ℕ → Comparing
run_at at = record {
  baseline = team;
  current_fingerprints =
      digest_of (codes "d9")
      ∷ digest_of (codes "c2")
      ∷ digest_of (codes "d1")
      ∷ digest_of (codes "d9")
      ∷ [];
  subject_id = subject;
  policy_digest = digest_of (codes "0a");
  evaluated_at = some at;
}

abbrev four_mebibytes : BaselineDocument → Option ℕ
four_mebibytes b = some 4194304

abbrev found : BaselineComparison
found = record {
  baseline_status = matched;
  new_fingerprints = digest_of (codes "d1") ∷ digest_of (codes "d9") ∷ [];
  accepted_fingerprints = digest_of (codes "c2") ∷ [];
}

-- A finding that occurs twice is listed once, and the lists are in order.
compare-found : compare_to_baseline four_mebibytes (run_at 150) ≡ ok found
unfolding compare_to_baseline classify_baseline parse_baseline baseline_issues subject_id repeats
    stable_id
compare-found = refl

-- The acceptance has run out at the instant of its expiry.
classify-at_expiry :
    classify_baseline four_mebibytes team subject (digest_of (codes "0a")) (some 200) ≡ ok stale
unfolding classify_baseline parse_baseline baseline_issues subject_id repeats stable_id
classify-at_expiry = refl

-- An expiry that `Date.parse` cannot read is never reached.
classify-unread_expiry :
    classify_baseline four_mebibytes
      (record team { expires_at = some none })
      subject
      (digest_of (codes "0a"))
      (some 200)
    ≡ ok matched
unfolding classify_baseline parse_baseline baseline_issues subject_id repeats stable_id
classify-unread_expiry = refl

-- A policy digest of the wrong form is only noticed for the baseline's own subject.
classify-other_subject :
    classify_baseline four_mebibytes team
      (codes "urn:verglos:subject:package:" ++ digest_of (codes "5c"))
      (codes "none")
      (some 150)
    ≡ ok mismatched
unfolding classify_baseline parse_baseline baseline_issues subject_id repeats stable_id
classify-other_subject = refl

classify-malformed_digest :
    classify_baseline four_mebibytes team subject (codes "none") (some 150)
    ≡ invalid (malformed_query ∷ [])
unfolding classify_baseline parse_baseline baseline_issues subject_id repeats stable_id
classify-malformed_digest = refl
