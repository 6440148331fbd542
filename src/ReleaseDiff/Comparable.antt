-- ===== src/ReleaseDiff/Comparable.antt =====
-- When two snapshots are comparable (packages/shared/src/release-diff.ts).
use verglos_cli.Prelude.{
  ◌+◌, ◌≡◌, refl, ap, ◌∙◌, ◌↔◌, true, false, List, [], ◌∷◌, ◌++◌, arith, length, filter, All,
}
use verglos_cli.Text.{Text}
use verglos_cli.Text.Order.{text_eq_refl}
use verglos_cli.Text.Sets.{has, set_of, has-set_of}
use verglos_cli.Contracts.{Parsed, ok, ◌>>=◌, raise, invalid, unreadable}
use verglos_cli.Contracts.Laws.{raise-eq-nil, raise_clear}
use verglos_cli.Schema.Canonical.{CanonicalError, canonicalize_json}
use verglos_cli.LineageGraph.{LineageEdge, edge_matched}
use verglos_cli.ReleaseDiff.{ReleaseDiff}
use verglos_cli.ReleaseDiff.Blockers.{
  CoverageStatus, coverage_complete, Evidence, is_unavailable_coverage, is_incomplete_coverage,
  is_unmatched, edge_json, edge_texts, blocker_rows, comparison_blockers,
}

-- The diff may be read as a comparison: one identity, complete coverage on both sides, each shared
-- severity assessed, each edge matched, and no gap.
pub record IsComparable (d : ReleaseDiff) (before after : Evidence) : Type 0 where
  pub one_identity : d.identity_changed ≡ false
  pub covered : (before.coverage ≡ coverage_complete) × (after.coverage ≡ coverage_complete)
  pub assessed : d.severity_unassessed ≡ []
  pub edges_matched : All (λ e. e.status ≡ edge_matched) (before.edges ++ after.edges)
  pub no_gaps : before.gaps ++ after.gaps ≡ []

length-eq-zero : {A : Type 0} (xs : List A) → length xs ≡ 0 → xs ≡ []
length-eq-zero [] h = refl
length-eq-zero (x ∷ xs) h = absurd (omega (arith, h))

set_of-eq-nil : (ts : List Text) → length (set_of ts) ≡ 0 → ts ≡ []
set_of-eq-nil [] h = refl
set_of-eq-nil (t ∷ ts) h =
    let none_left : set_of (t ∷ ts) ≡ [] = length-eq-zero (set_of (t ∷ ts)) h in
    let held : has t (set_of (t ∷ ts)) ≡ true =
      has-set_of t (t ∷ ts) ∙ ground (arith, text_eq_refl t) in
    let lost : has t (set_of (t ∷ ts)) ≡ false = ap (has t) none_left in cc

edge_texts-nil :
    (es : List LineageEdge) (ts : List Text) → edge_texts es ≡ ok ts → ts ≡ [] → es ≡ []
edge_texts-nil [] ts h e = refl
edge_texts-nil (x ∷ es) ts h e = nonempty (canonicalize_json (edge_json x)) (edge_texts es) h e
  where
    nonempty :
        (m : Parsed CanonicalError Text) (n : Parsed CanonicalError (List Text))
        → (m >>= (λ t. n >>= (λ us. ok (t ∷ us)))) ≡ ok ts
        → ts ≡ []
        → x ∷ es ≡ []
    nonempty (ok t) (ok us) h e = cc
    nonempty (ok t) (invalid is) h e = cc
    nonempty (ok t) (unreadable c) h e = cc
    nonempty (invalid is) n h e = cc
    nonempty (unreadable c) n h e = cc

unmatched_iff :
    (es : List LineageEdge) → (filter is_unmatched es ≡ []) ↔ All (λ e. e.status ≡ edge_matched) es
unmatched_iff [] = ground arith
unmatched_iff (e ∷ es) = ground (arith, unmatched_iff es)

complete_iff :
    (c : CoverageStatus)
    → ((is_unavailable_coverage c ≡ false) × (is_incomplete_coverage c ≡ false))
      ↔ (c ≡ coverage_complete)
complete_iff c = ground arith

blockers-IsComparable :
    (d : ReleaseDiff) (before after : Evidence) (ts : List Text)
    → edge_texts (filter is_unmatched (before.edges ++ after.edges)) ≡ ok ts
    → raise (
        blocker_rows d before after
          (length (set_of ts) + length (set_of (before.gaps ++ after.gaps))))
      ≡ []
    → IsComparable d before after
blockers-IsComparable d before after ts read h =
    let rows = raise-eq-nil (blocker_rows d before after _) h in
    let unresolved = rows.1.1.1.1.0 in
    let edges = filter is_unmatched (before.edges ++ after.edges) in
    record {
      one_identity = rows.0;
      covered =
          ground (
            arith,
            rows.1.0,
            rows.1.1.0,
            complete_iff before.coverage,
            complete_iff after.coverage,
          );
      assessed = length-eq-zero d.severity_unassessed (ground (arith, rows.1.1.1.0));
      edges_matched =
          (unmatched_iff (before.edges ++ after.edges)).0
            (edge_texts-nil edges ts read (set_of-eq-nil ts (ground (arith, unresolved))));
      no_gaps = set_of-eq-nil (before.gaps ++ after.gaps) (ground (arith, unresolved));
    }

-- The diff reports no comparison blocker exactly where the identity is unchanged, coverage is complete
-- on both sides, each shared severity is assessed, each lineage edge is matched, and there is no gap.
pub comparison_blockers-none_iff :
    (d : ReleaseDiff) (before after : Evidence)
    → (comparison_blockers d before after ≡ ok []) ↔ IsComparable d before after
unfolding comparison_blockers
comparison_blockers-none_iff d before after = (
  none_of (edge_texts (filter is_unmatched (before.edges ++ after.edges))) refl,
  λ c.
      back c (edge_texts (filter is_unmatched (before.edges ++ after.edges)))
        (ap edge_texts ((unmatched_iff (before.edges ++ after.edges)).1 c.edges_matched)),
)
  where
    none_of :
        (m : Parsed CanonicalError (List Text))
        → edge_texts (filter is_unmatched (before.edges ++ after.edges)) ≡ m
        → (m >>= (λ ts. ok (
            raise (
              blocker_rows d before after
                (length (set_of ts) + length (set_of (before.gaps ++ after.gaps)))))))
          ≡ ok []
        → IsComparable d before after
    none_of (ok ts) read h = blockers-IsComparable d before after ts read (cc h)
    none_of (invalid is) read h = cc
    none_of (unreadable c) read h = cc

    back :
        IsComparable d before after
        → (m : Parsed CanonicalError (List Text)) → m ≡ ok []
        → (m >>= (λ ts. ok (
            raise (
              blocker_rows d before after
                (length (set_of ts) + length (set_of (before.gaps ++ after.gaps)))))))
          ≡ ok []
    back c (invalid is) e = cc
    back c (unreadable x) e = cc
    back c (ok ts) e =
        let none_read : ts ≡ [] = cc e in
        let edges : length (set_of ts) ≡ 0 = ap (λ l. length (set_of l)) none_read in
        let gaps : length (set_of (before.gaps ++ after.gaps)) ≡ 0 =
          ap (λ l. length (set_of l)) c.no_gaps in
        let assessed : length d.severity_unassessed ≡ 0 = ap (λ l. length l) c.assessed in
        ap ok (
          raise_clear (blocker_rows d before after _) (
            c.one_identity,
            (
              ground (arith, complete_iff before.coverage, complete_iff after.coverage, c.covered),
              (
                ground
                    (arith, complete_iff before.coverage, complete_iff after.coverage, c.covered),
                (ground (arith, assessed), (ground (arith, edges, gaps), tt)),
              ),
            ),
          ))
