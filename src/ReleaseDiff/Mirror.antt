-- ===== src/ReleaseDiff/Mirror.antt =====
-- `diffReleaseSnapshots` (packages/shared/src/release-diff.ts) with its snapshots exchanged.
use verglos_cli.Prelude.{◌≡◌, refl, Option, none, some, List, [], ◌∷◌, arith}
use verglos_cli.Text.{Text}
use verglos_cli.Text.Sets.{has, set_of, text_eq_comm}
use verglos_cli.Text.Sorting.{IsStrict-unique}
use verglos_cli.ReleaseDiff.{
  Severity, Snapshot, fingerprints, severity_in, Movement, unassessed, worse, better, level,
  compare_severities, Moved, move, assess, sorted, shared, texts_eq, ReleaseDiff,
  diff_release_snapshots,
}
use verglos_cli.ReleaseDiff.Laws.{sorted-IsStrict, only_in-NoRepeat, In-shared_iff}

abbrev opposite : Movement → Movement
opposite worse = better
opposite better = worse
opposite unassessed = unassessed
opposite level = level

abbrev mirror_moved : Moved → Moved
mirror_moved m = record m { worsened = m.improved; improved = m.worsened }

abbrev pub mirror : ReleaseDiff → ReleaseDiff
mirror d = record d {
  added = d.fixed;
  fixed = d.added;
  worsened = d.improved;
  improved = d.worsened;
}

compare-opposite :
    (p c : Option Severity) → compare_severities c p ≡ opposite (compare_severities p c)
compare-opposite none none = refl
compare-opposite none (some c) = refl
compare-opposite (some p) none = refl
compare-opposite (some p) (some c) = ground arith

move-opposite :
    (m : Movement) (f : Text) (r : Moved)
    → move (opposite m) f (mirror_moved r) ≡ mirror_moved (move m f r)
move-opposite worse f r = refl
move-opposite better f r = refl
move-opposite unassessed f r = refl
move-opposite level f r = refl

assess-opposite :
    (base head : Snapshot) (fs : List Text)
    → assess head base fs ≡ mirror_moved (assess base head fs)
assess-opposite base head [] = refl
assess-opposite base head (f ∷ fs) =
    let p = severity_in base f in
    let c = severity_in head f in
    rw (compare-opposite p c, assess-opposite base head fs)
      (move-opposite (compare_severities p c) f (assess base head fs))

shared_comm : (before after : List Text) → shared after before ≡ shared before after
shared_comm before after =
    IsStrict-unique (λ t. t) (shared after before) (shared before after)
      (sorted-IsStrict _ (only_in-NoRepeat (λ f. has f (set_of after)) before))
      (sorted-IsStrict _ (only_in-NoRepeat (λ f. has f (set_of before)) after))
      (λ t. ground (arith, In-shared_iff t before after, In-shared_iff t after before))

texts_eq_comm : (ss ts : List Text) → texts_eq ss ts ≡ texts_eq ts ss
texts_eq_comm [] [] = refl
texts_eq_comm [] (t ∷ ts) = refl
texts_eq_comm (s ∷ ss) [] = refl
texts_eq_comm (s ∷ ss) (t ∷ ts) = ground (arith, text_eq_comm s t, texts_eq_comm ss ts)

-- The difference in the other direction has added and fixed in each other's place, as worsened and
-- improved, and the same unchanged and unassessed fingerprints and the same answers on whether the
-- identity and the policy have changed. Nothing is said of coverage, lineage and blockers.
pub diff_release_snapshots-mirror :
    (base head : Snapshot)
    → diff_release_snapshots head base ≡ mirror (diff_release_snapshots base head)
unfolding diff_release_snapshots
diff_release_snapshots-mirror base head =
    let one = shared_comm (fingerprints base) (fingerprints head) in
    let moved = assess-opposite base head (shared (fingerprints base) (fingerprints head)) in
    rw
      (
        one,
        moved,
        text_eq_comm head.primary_subject_id base.primary_subject_id,
        texts_eq_comm (sorted head.subject_ids) (sorted base.subject_ids),
        text_eq_comm head.policy_input_digest base.policy_input_digest,
      )
      refl
