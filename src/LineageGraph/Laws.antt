-- ===== src/LineageGraph/Laws.antt =====
-- Documents of `parseLineageGraphDocument` (packages/shared/src/lineage-graph.ts).
use verglos_cli.Prelude.{
  map_id, ◌≡◌, refl, sym, ◌↔◌, Bool, true, false, List, [], ◌∷◌, arith, any, all, In, All,
}
use verglos_cli.Text.{Text}
use verglos_cli.Text.Sets.{has_iff, NoRepeat}
use verglos_cli.Text.Sorting.{sort_by, IsStrict}
use verglos_cli.Contracts.{raise, ok, accept_if_clean, assert_compatible}
use verglos_cli.Contracts.Laws.{
  IsClear, raise-eq-nil, accept-eq-ok, >>=-same, assert_compatible-eq-ok,
}
use verglos_cli.LineageGraph.{
  LineageEdge, LineageInput, LineageDocument, LineageIssue, edge_key, lineage_field_rows,
  field_issues, out_of_order, leaves, order_rows, throw_first, throw_disorder,
  parse_lineage_graph_document,
}
use verglos_cli.LineageGraph.Order.{out_of_order-eq-false_iff, out_of_order-sort_by_iff}

-- Both ends of an edge are among the subjects.
abbrev pub IsWithin : List Text → LineageEdge → Type 0
IsWithin subjects e = In e.from_subject_id subjects × In e.to_subject_id subjects

-- The subject ids, the edges and the gaps ascend strictly, and no edge leaves the subjects.
pub record IsCanonical (i : LineageInput) : Type 0 where
  pub subjects : IsStrict (λ t. t) i.subject_ids
  pub edges : IsStrict edge_key i.edges
  pub gaps : IsStrict (λ t. t) i.gaps
  pub closed : All (IsWithin i.subject_ids) i.edges

pub all_iff :
    {A : Type 0} (p : A → Bool) (xs : List A) → (all p xs ≡ true) ↔ All (λ x. p x ≡ true) xs
all_iff p [] = ground arith
all_iff p (x ∷ xs) = ground (arith, all_iff p xs)

pub leaves_iff :
    (subjects : List Text) (es : List LineageEdge)
    → (any (leaves subjects) es ≡ false) ↔ All (IsWithin subjects) es
leaves_iff subjects [] = ground arith
leaves_iff subjects (e ∷ es) = ground (
  arith,
  has_iff e.from_subject_id subjects,
  has_iff e.to_subject_id subjects,
  leaves_iff subjects es,
)

texts_in_order : (ts : List Text) → (out_of_order ts ≡ false) ↔ IsStrict (λ t. t) ts
texts_in_order ts = rw (map_id ts) at (out_of_order-eq-false_iff (λ t. t) ts)

pub texts_sorted : (ts : List Text) → (out_of_order (sort_by (λ t. t) ts) ≡ false) ↔ NoRepeat ts
texts_sorted ts =
    rw (map_id (sort_by (λ t. t) ts), map_id ts) at (out_of_order-sort_by_iff (λ t. t) ts)

order-IsClear_iff : (i : LineageInput) → IsClear (order_rows i) ↔ IsCanonical i
order-IsClear_iff i = (
  λ rows. record {
    subjects = (texts_in_order i.subject_ids).0 rows.0;
    edges = (out_of_order-eq-false_iff edge_key i.edges).0 rows.1.0;
    gaps = (texts_in_order i.gaps).0 rows.1.1.0;
    closed = (leaves_iff i.subject_ids i.edges).0 rows.1.1.1.0;
  },
  λ c. (
    (texts_in_order i.subject_ids).1 c.subjects,
    (
      (out_of_order-eq-false_iff edge_key i.edges).1 c.edges,
      ((texts_in_order i.gaps).1 c.gaps, ((leaves_iff i.subject_ids i.edges).1 c.closed, tt)),
    ),
  ),
)

pub thrown :
    {A : Type 0} (is : List LineageIssue) (a : A) {b : A}
    → throw_first is a ≡ ok b
    → (is ≡ []) × (a ≡ b)
thrown [] a h = (refl, cc)
thrown (i ∷ is) a h = cc

pub parse_inversion :
    (d e : LineageDocument)
    → parse_lineage_graph_document d ≡ ok e
    → (e ≡ d) × IsClear (lineage_field_rows d) × IsClear (order_rows d.input)
unfolding parse_lineage_graph_document field_issues throw_disorder
parse_inversion d e h =
    let (fields, rest) =
      >>=-same (accept_if_clean (field_issues d) d) d _
        (λ c k. (accept-eq-ok (field_issues d) d k).1) h in
    let (version, last) =
      >>=-same (assert_compatible d.schema_version d) d throw_disorder
        (λ c k. assert_compatible-eq-ok d.schema_version d k) rest in
    let (quiet, same) = thrown (raise (order_rows d.input)) d last in
    (
      sym same,
      raise-eq-nil (lineage_field_rows d) (accept-eq-ok (field_issues d) d fields).0,
      raise-eq-nil (order_rows d.input) quiet,
    )

-- An accepted lineage document is returned as it is, and is canonical: its subject ids, its edges
-- (by their keys) and its gaps ascend strictly, and both ends of each edge are among its subjects.
pub parse_lineage_graph_document-IsCanonical :
    (d e : LineageDocument) → parse_lineage_graph_document d ≡ ok e → (e ≡ d) × IsCanonical d.input
parse_lineage_graph_document-IsCanonical d e h =
    let (same, fields, ordered) = parse_inversion d e h in
    (same, (order-IsClear_iff d.input).0 ordered)
