-- ===== src/ReleaseDiff/Laws.antt =====
-- Fingerprints in the lists of `diffReleaseSnapshots` (packages/shared/src/release-diff.ts).
use verglos_cli.Prelude.{
  ◌<◌, ◌≡◌, refl, sym, ap, ◌∙◌, ◌↔◌, ◌⊎◌, inl, inr, Bool, not, Option, none, some, List, [], ◌∷◌,
  arith, filter, map_id, In,
}
use verglos_cli.Text.{Text}
use verglos_cli.Text.Sets.{
  has, set_of, has_iff, NoRepeat, has-set_of, NoRepeat-add_all, has-filter, NoRepeat-filter,
}
use verglos_cli.Text.Sorting.{IsStrict, In-sort_by, sort_by-IsStrict}
use verglos_cli.ReleaseDiff.{
  Severity, severity_order, Snapshot, fingerprints, severity_in, Movement, unassessed, worse,
  better, level, compare_severities, Moved, move, assess, sorted, only_in, shared,
  diff_release_snapshots,
}

pub In-sorted : (t : Text) (ts : List Text) → In t (sorted ts) ↔ In t ts
In-sorted t ts = In-sort_by (λ s. s) t ts

pub sorted-IsStrict : (ts : List Text) → NoRepeat ts → IsStrict (λ s. s) (sorted ts)
sorted-IsStrict ts n = sort_by-IsStrict (λ s. s) ts (rw (map_id ts) n)

pub only_in-NoRepeat : (p : Text → Bool) (of : List Text) → NoRepeat (filter p (set_of of))
only_in-NoRepeat p of = NoRepeat-filter p (set_of of) (NoRepeat-add_all [] of tt)

pub In-only_in_iff :
    (t : Text) (of other : List Text) → In t (only_in of other) ↔ (In t of × ¬ In t other)
In-only_in_iff t of other =
    let kept = filter (λ f. not (has f (set_of other))) (set_of of) in
    ground (
      arith,
      In-sorted t kept,
      has_iff t kept,
      has-filter (λ f. not (has f (set_of other))) t (set_of of),
      has-set_of t of,
      has-set_of t other,
      has_iff t of,
      has_iff t other,
    )

pub In-shared_iff :
    (t : Text) (before after : List Text) → In t (shared before after) ↔ (In t before × In t after)
In-shared_iff t before after =
    let kept = filter (λ f. has f (set_of before)) (set_of after) in
    ground (
      arith,
      In-sorted t kept,
      has_iff t kept,
      has-filter (λ f. has f (set_of before)) t (set_of after),
      has-set_of t before,
      has-set_of t after,
      has_iff t before,
      has_iff t after,
    )

abbrev pub movement : Snapshot → Snapshot → Text → Movement
movement base head f = compare_severities (severity_in base f) (severity_in head f)

In-move :
    (m : Movement) (t f : Text) (r : Moved)
    → (In t (move m f r).worsened ↔ (((m ≡ worse) × (t ≡ f)) ⊎ In t r.worsened))
      × (In t (move m f r).improved ↔ (((m ≡ better) × (t ≡ f)) ⊎ In t r.improved))
      × (In t (move m f r).severity_unassessed
          ↔ (((m ≡ unassessed) × (t ≡ f)) ⊎ In t r.severity_unassessed))
In-move worse t f r = ground arith
In-move better t f r = ground arith
In-move unassessed t f r = ground arith
In-move level t f r = ground arith

module _ (base head : Snapshot) where
  at_head :
      (t f : Text) (fs : List Text) (m : Movement) (L M : Type 0)
      → L ↔ (((movement base head f ≡ m) × (t ≡ f)) ⊎ M)
      → M ↔ (In t fs × (movement base head t ≡ m))
      → L ↔ (((t ≡ f) ⊎ In t fs) × (movement base head t ≡ m))
  at_head t f fs m L M h k = (
    λ l. elim (h.0 l) [
      | inl (e, s) ↦ (inl s, ap (movement base head) s ∙ e)
      | inr n ↦ (inr (k.0 n).0, (k.0 n).1)
    ],
    λ (n, e). h.1 (at n e),
  )
    where
      at : (t ≡ f) ⊎ In t fs → movement base head t ≡ m → ((movement base head f ≡ m) × (t ≡ f)) ⊎ M
      at (inl s) e = inl (sym (ap (movement base head) s) ∙ e, s)
      at (inr n) e = inr (k.1 (n, e))

  pub In-assess :
      (t : Text) (fs : List Text)
      → (In t (assess base head fs).worsened ↔ (In t fs × (movement base head t ≡ worse)))
        × (In t (assess base head fs).improved ↔ (In t fs × (movement base head t ≡ better)))
        × (In t (assess base head fs).severity_unassessed
            ↔ (In t fs × (movement base head t ≡ unassessed)))
  In-assess t [] = ground arith
  In-assess t (f ∷ fs) =
      let (w, b, u) = In-move (movement base head f) t f (assess base head fs) in
      let (ws, bs, us) = In-assess t fs in
      (
        at_head t f fs worse _ _ w ws,
        at_head t f fs better _ _ b bs,
        at_head t f fs unassessed _ _ u us,
      )

-- Both severities are known, and the first is the lower one.
abbrev pub HasRisen : Option Severity → Option Severity → Type 0
HasRisen p c =
    (a : Severity) × (b : Severity) × (p ≡ some a)
    × (c ≡ some b)
    × (severity_order a < severity_order b)

worse_iff : (p c : Option Severity) → (compare_severities p c ≡ worse) ↔ HasRisen p c
worse_iff none c = ((λ e. cc), λ (a, b, e, f, h). cc)
worse_iff (some p) none = ((λ e. cc), λ (a, b, e, f, h). cc)
worse_iff (some p) (some c) = (
  (λ e. (p, c, refl, refl, ground (arith, e))),
  λ (a, b, e, f, h).
      let lower : severity_order p < severity_order c = rw (inj p a e, inj c b f) h in
      ground (arith, lower),
)
  where
    inj : (x y : Severity) → some x ≡ some y → x ≡ y
    inj x y e = cc

better_iff : (p c : Option Severity) → (compare_severities p c ≡ better) ↔ HasRisen c p
better_iff p c = ground (arith, worse_iff c p, opposites p c)
  where
    opposites :
        (p c : Option Severity)
        → (compare_severities p c ≡ better) ↔ (compare_severities c p ≡ worse)
    opposites none none = ground arith
    opposites none (some c) = ground arith
    opposites (some p) none = ground arith
    opposites (some p) (some c) = ground arith

unassessed_iff :
    (p c : Option Severity) → (compare_severities p c ≡ unassessed) ↔ ((p ≡ none) ⊎ (c ≡ none))
unassessed_iff none c = ((λ e. inl refl), λ e. refl)
unassessed_iff (some p) none = ((λ e. inr refl), λ e. refl)
unassessed_iff (some p) (some c) = ground arith

-- The added fingerprints are those of the new snapshot alone, the fixed ones those of the old one
-- alone, the unchanged ones those of both; each list ascends strictly.
pub diff_release_snapshots-partition :
    (base head : Snapshot)
    → let d = diff_release_snapshots base head in
      ((t : Text)
        → (In t d.added ↔ (In t (fingerprints head) × ¬ In t (fingerprints base)))
          × (In t d.fixed ↔ (In t (fingerprints base) × ¬ In t (fingerprints head)))
          × (In t d.unchanged ↔ (In t (fingerprints base) × In t (fingerprints head))))
      × IsStrict (λ s. s) d.added
      × IsStrict (λ s. s) d.fixed
      × IsStrict (λ s. s) d.unchanged
unfolding diff_release_snapshots
diff_release_snapshots-partition base head =
    let before = fingerprints base in
    let after = fingerprints head in
    (
      λ t. (
        In-only_in_iff t after before,
        In-only_in_iff t before after,
        In-shared_iff t before after,
      ),
      sorted-IsStrict _ (only_in-NoRepeat (λ f. not (has f (set_of before))) after),
      sorted-IsStrict _ (only_in-NoRepeat (λ f. not (has f (set_of after))) before),
      sorted-IsStrict _ (only_in-NoRepeat (λ f. has f (set_of before)) after),
    )

-- A shared fingerprint is worsened exactly where both of its severities are known and the new one is
-- higher, improved where the new one is lower, and unassessed where one of them is not known.
pub diff_release_snapshots-movement :
    (base head : Snapshot) (t : Text)
    → let d = diff_release_snapshots base head in
      (In t d.worsened ↔ (In t d.unchanged × HasRisen (severity_in base t) (severity_in head t)))
      × (In t d.improved ↔ (In t d.unchanged × HasRisen (severity_in head t) (severity_in base t)))
      × (In t d.severity_unassessed
          ↔ (In t d.unchanged × ((severity_in base t ≡ none) ⊎ (severity_in head t ≡ none))))
unfolding diff_release_snapshots
diff_release_snapshots-movement base head t =
    let unchanged = shared (fingerprints base) (fingerprints head) in
    let moved = assess base head unchanged in
    let (w, b, u) = In-assess base head t unchanged in
    let p = severity_in base t in
    let c = severity_in head t in
    (
      through _ _ _ _ _ (In-sorted t moved.worsened) w (worse_iff p c),
      through _ _ _ _ _ (In-sorted t moved.improved) b (better_iff p c),
      through _ _ _ _ _ (In-sorted t moved.severity_unassessed) u (unassessed_iff p c),
    )
  where
    through : (L M N P Q : Type 0) → L ↔ M → M ↔ (N × P) → P ↔ Q → L ↔ (N × Q)
    through L M N P Q f g h =
        ((λ l. let (n, p) = g.0 (f.0 l) in (n, h.0 p)), λ (n, q). f.1 (g.1 (n, h.1 q)))
