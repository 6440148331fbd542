-- ===== src/ReleaseRollback/Tests.antt =====
-- Runs of the rollback decision, and its theorems at them.
use verglos_cli.Prelude.{◌≡◌, refl, ◌↔◌, true, false, none}
use verglos_cli.Text.{Text, codes}
use verglos_cli.ReleaseRollback.{
  signing_identity, npm_package, ReleaseReference, RollbackRequest, rollback,
  revocation_requires_replacement, allowed, refused, safe_line, is_immutable_ref, plan_of,
  decide_release_rollback,
}
use verglos_cli.ReleaseRollback.Laws.{
  IsPermitted, decide_release_rollback-allowed_iff, undo, decide_release_rollback-undo,
}

abbrev version_of : Text → ReleaseReference
version_of t = record { kind = npm_package; identity = codes "verglos"; immutable_ref = t }

abbrev back_to_older : RollbackRequest
back_to_older = record {
  current = version_of (codes "v1.4.0");
  target = version_of (codes "v1.3.9-rc.1");
  approved = true;
  reason = codes " Regression in the scanner. ";
  preserve_historical_records = true;
  replacement_identity = none;
}

reading : Unit {0}
unfolding safe_line is_immutable_ref decide_release_rollback
reading = tt

reference_tests :
    (is_immutable_ref (codes "v1.2") ≡ false)
    × (is_immutable_ref (codes "v1.2.3-") ≡ false)
    × (is_immutable_ref (codes "https://host/a?b") ≡ false)
    × (is_immutable_ref (codes "https://host/a") ≡ true)
unfolding reading
reference_tests = (refl, refl, refl, refl)

back_test : decide_release_rollback back_to_older ≡ allowed (plan_of rollback back_to_older)
unfolding reading
back_test = refl

revocation_test :
    decide_release_rollback (record back_to_older {
      current = record back_to_older.current { kind = signing_identity };
      target = record back_to_older.target { kind = signing_identity };
    })
    ≡ refused revocation_requires_replacement
unfolding reading
revocation_test = refl

decide_release_rollback-allowed_iff_example :
    (decide_release_rollback back_to_older ≡ allowed (plan_of rollback back_to_older)) ↔ (
      IsPermitted back_to_older × (plan_of rollback back_to_older ≡ plan_of rollback back_to_older))
decide_release_rollback-allowed_iff_example =
    decide_release_rollback-allowed_iff back_to_older (plan_of rollback back_to_older)

decide_release_rollback-undo_example :
    decide_release_rollback (undo back_to_older) ≡ allowed (plan_of rollback (undo back_to_older))
decide_release_rollback-undo_example =
    decide_release_rollback-undo back_to_older (plan_of rollback back_to_older) back_test (λ e. cc)
