-- ===== src/ReleaseDiff/Tests.antt =====
-- Runs of the release diff, and its theorems at them.
use verglos_cli.Prelude.{◌≡◌, refl, ◌↔◌, true, false, some, [], ◌∷◌, In}
use verglos_cli.Text.{Text, codes}
use verglos_cli.Text.Sorting.{IsStrict}
use verglos_cli.ReleaseDiff.{
  Severity, low, high, known, mixed, RiskObservation, Snapshot, fingerprints, ReleaseDiff,
  diff_release_snapshots,
}
use verglos_cli.Contracts.{ok}
use verglos_cli.ReleaseDiff.Blockers.{
  Evidence, coverage_complete, coverage_incomplete, incomplete_blocker, severity_blocker,
  lineage_blocker, comparison_blockers,
}
use verglos_cli.ReleaseDiff.Laws.{diff_release_snapshots-partition}
use verglos_cli.ReleaseDiff.Mirror.{mirror, diff_release_snapshots-mirror}

abbrev observed : Text → Severity → RiskObservation
observed f s = record { fingerprint = f; severity = some (known s) }

abbrev old_release : Snapshot
old_release = record {
  primary_subject_id = codes "s";
  subject_ids = codes "s" ∷ [];
  observations =
      observed (codes "c") low ∷ observed (codes "b") high ∷ observed (codes "a") low ∷ [];
  policy_input_digest = codes "p";
}

abbrev new_release : Snapshot
new_release = record {
  primary_subject_id = codes "s";
  subject_ids = codes "s" ∷ [];
  observations =
      observed (codes "d") low
      ∷ observed (codes "a") high
      ∷ record { fingerprint = codes "b"; severity = some mixed }
      ∷ [];
  policy_input_digest = codes "q";
}

abbrev difference : ReleaseDiff
difference = record {
  added = codes "d" ∷ [];
  fixed = codes "c" ∷ [];
  worsened = codes "a" ∷ [];
  improved = [];
  unchanged = codes "a" ∷ codes "b" ∷ [];
  severity_unassessed = codes "b" ∷ [];
  identity_changed = false;
  policy_changed = true;
}

diff_test : diff_release_snapshots old_release new_release ≡ difference
unfolding diff_release_snapshots
diff_test = refl

diff_release_snapshots-partition_example :
    ((t : Text)
      → (In t (diff_release_snapshots old_release new_release).added
          ↔ (In t (fingerprints new_release) × ¬ In t (fingerprints old_release)))
        × (In t (diff_release_snapshots old_release new_release).fixed
            ↔ (In t (fingerprints old_release) × ¬ In t (fingerprints new_release)))
        × (In t (diff_release_snapshots old_release new_release).unchanged
            ↔ (In t (fingerprints old_release) × In t (fingerprints new_release))))
    × IsStrict (λ s. s) (diff_release_snapshots old_release new_release).added
    × IsStrict (λ s. s) (diff_release_snapshots old_release new_release).fixed
    × IsStrict (λ s. s) (diff_release_snapshots old_release new_release).unchanged
diff_release_snapshots-partition_example = diff_release_snapshots-partition old_release new_release

diff_release_snapshots-mirror_example :
    diff_release_snapshots new_release old_release
    ≡ mirror (diff_release_snapshots old_release new_release)
diff_release_snapshots-mirror_example = diff_release_snapshots-mirror old_release new_release

abbrev complete : Evidence
complete = record { coverage = coverage_complete; edges = []; gaps = [] }

abbrev partial : Evidence
partial = record { coverage = coverage_incomplete; edges = []; gaps = codes "no source" ∷ [] }

abbrev settled : ReleaseDiff
settled = record difference { severity_unassessed = [] }

blockers_test :
    comparison_blockers difference complete partial
    ≡ ok (incomplete_blocker ∷ severity_blocker 1 ∷ lineage_blocker 1 ∷ [])
unfolding comparison_blockers
blockers_test = refl
