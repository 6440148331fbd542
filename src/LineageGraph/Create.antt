-- ===== src/LineageGraph/Create.antt =====
-- Inputs of `createLineageGraphDocument` (packages/shared/src/lineage-graph.ts).
use verglos_cli.Prelude.{
  map_id, ◌≤◌, ◌≡◌, refl, sym, ap, ◌∙◌, ◌↔◌, Bool, true, false, List, map, arith, length, any, all,
  In, All, All-map,
}
use verglos_cli.Text.{Text}
use verglos_cli.Text.Sets.{NoRepeat}
use verglos_cli.Text.Sorting.{sort_by, All-sort_by, In-sort_by, length-sort_by, sort_by-eq}
use verglos_cli.Formats.{subject_id, length_in}
use verglos_cli.Schema.Version.{parse_schema_version, classify_schema_compatibility}
use verglos_cli.Contracts.{ok, assert_compatible, is_version, reader_version}
use verglos_cli.Contracts.Laws.{IsClear, raise_clear}
use verglos_cli.LineageGraph.{
  LineageEdge, LineageInput, LineageDocument, LineageIssue, edge_key, edge_ok, lineage_field_rows,
  field_issues, leaves, order_rows, throw_disorder, parse_lineage_graph_document, in_order,
  document_of, create_lineage_graph_document,
}
use verglos_cli.LineageGraph.Order.{out_of_order-sort_by_iff}
use verglos_cli.LineageGraph.Laws.{IsWithin, all_iff, leaves_iff, texts_sorted, parse_inversion}

-- What an input must be, in whatever order it comes.
pub record IsSound (i : LineageInput) : Type 0 where
  pub some_subjects : 1 ≤ length i.subject_ids
  pub subject_count : length i.subject_ids ≤ 10000
  pub subject_formats : All (λ s. subject_id s ≡ true) i.subject_ids
  pub edge_count : length i.edges ≤ 20000
  pub edge_formats : All (λ e. edge_ok e ≡ true) i.edges
  pub gap_count : length i.gaps ≤ 20000
  pub gap_formats : All (λ g. length_in 1 512 g ≡ true) i.gaps
  pub subjects_differ : NoRepeat i.subject_ids
  pub edges_differ : NoRepeat (map edge_key i.edges)
  pub gaps_differ : NoRepeat i.gaps
  pub closed : All (IsWithin i.subject_ids) i.edges

all-sort_by_iff :
    {A : Type 0} (key : A → Text) (p : A → Bool) (xs : List A)
    → (all p (sort_by key xs) ≡ true) ↔ All (λ x. p x ≡ true) xs
all-sort_by_iff key p xs =
    ground (arith, all_iff p (sort_by key xs), All-sort_by key (λ x. p x ≡ true) xs)

-- An edge leaves the sorted subjects exactly where it leaves the subjects.
leaves-sort_by_iff :
    (subjects : List Text) (es : List LineageEdge)
    → (any (leaves (sort_by (λ t. t) subjects)) (sort_by edge_key es) ≡ false)
      ↔ All (IsWithin subjects) es
leaves-sort_by_iff subjects es =
    let sorted = sort_by (λ t. t) subjects in
    let sorts : (t : Text) → In t sorted ↔ In t subjects = λ t. In-sort_by (λ t. t) t subjects in
    (
      λ h.
          All-map (λ e (a, b). ((sorts e.from_subject_id).0 a, (sorts e.to_subject_id).0 b)) es
            ((All-sort_by edge_key (IsWithin sorted) es).0
              ((leaves_iff sorted (sort_by edge_key es)).0 h)),
      λ h. (leaves_iff sorted (sort_by edge_key es)).1 (
          (All-sort_by edge_key (IsWithin sorted) es).1 (
            All-map (λ e (a, b). ((sorts e.from_subject_id).1 a, (sorts e.to_subject_id).1 b)) es
              h)),
    )

reader-is_version : is_version reader_version ≡ true
unfolding is_version parse_schema_version
reader-is_version = refl

reader_compatible :
    (d : LineageDocument) → assert_compatible {I = LineageIssue} reader_version d ≡ ok d
unfolding assert_compatible classify_schema_compatibility parse_schema_version
reader_compatible d = refl

sound-IsClear : (i : LineageInput) → IsSound i → IsClear (lineage_field_rows (document_of i))
sound-IsClear i s = (
  ground (arith, reader-is_version),
  (
    ground (arith, s.some_subjects, s.subject_count, length-sort_by (λ t. t) i.subject_ids),
    (
      ground (arith, (all-sort_by_iff (λ t. t) subject_id i.subject_ids).1 s.subject_formats),
      (
        ground (arith, s.edge_count, length-sort_by edge_key i.edges),
        (
          ground (arith, (all-sort_by_iff edge_key edge_ok i.edges).1 s.edge_formats),
          (
            ground (arith, s.gap_count, length-sort_by (λ t. t) i.gaps),
            (
              ground (arith, (all-sort_by_iff (λ t. t) (length_in 1 512) i.gaps).1 s.gap_formats),
              tt,
            ),
          ),
        ),
      ),
    ),
  ),
)

sound-IsOrdered : (i : LineageInput) → IsSound i → IsClear (order_rows (in_order i))
sound-IsOrdered i s = (
  (texts_sorted i.subject_ids).1 s.subjects_differ,
  (
    (out_of_order-sort_by_iff edge_key i.edges).1 s.edges_differ,
    (
      (texts_sorted i.gaps).1 s.gaps_differ,
      ((leaves-sort_by_iff i.subject_ids i.edges).1 s.closed, tt),
    ),
  ),
)

rows-IsSound :
    (i : LineageInput)
    → IsClear (lineage_field_rows (document_of i))
    → IsClear (order_rows (in_order i))
    → IsSound i
rows-IsSound i f o = record {
  some_subjects = ground (arith, f.1.0, length-sort_by (λ t. t) i.subject_ids);
  subject_count = ground (arith, f.1.0, length-sort_by (λ t. t) i.subject_ids);
  subject_formats = (all-sort_by_iff (λ t. t) subject_id i.subject_ids).0 (ground (arith, f.1.1.0));
  edge_count = ground (arith, f.1.1.1.0, length-sort_by edge_key i.edges);
  edge_formats = (all-sort_by_iff edge_key edge_ok i.edges).0 (ground (arith, f.1.1.1.1.0));
  gap_count = ground (arith, f.1.1.1.1.1.0, length-sort_by (λ t. t) i.gaps);
  gap_formats =
      (all-sort_by_iff (λ t. t) (length_in 1 512) i.gaps).0 (ground (arith, f.1.1.1.1.1.1.0));
  subjects_differ = (texts_sorted i.subject_ids).0 o.0;
  edges_differ = (out_of_order-sort_by_iff edge_key i.edges).0 o.1.0;
  gaps_differ = (texts_sorted i.gaps).0 o.1.1.0;
  closed = (leaves-sort_by_iff i.subject_ids i.edges).0 o.1.1.1.0;
}

-- `createLineageGraphDocument` returns the input in order exactly where the input is sound: within
-- the counts, well formed, without repetition, and with no edge that leaves the subjects. It
-- returns nothing else.
pub create_lineage_graph_document-ok_iff :
    (i : LineageInput) (d : LineageDocument)
    → (create_lineage_graph_document i ≡ ok d) ↔ (IsSound i × (d ≡ document_of i))
unfolding create_lineage_graph_document parse_lineage_graph_document field_issues throw_disorder
create_lineage_graph_document-ok_iff i d = (
  λ h.
      let (same, fields, ordered) = parse_inversion (document_of i) d h in
      (rows-IsSound i fields ordered, same),
  λ (sound, same).
      rw
        (
          raise_clear (lineage_field_rows (document_of i)) (sound-IsClear i sound),
          reader_compatible (document_of i),
          raise_clear (order_rows (in_order i)) (sound-IsOrdered i sound),
          same,
        )
        refl,
)

-- Two inputs with the same subject ids, edges and gaps in any order, both of which are accepted,
-- have one document.
pub create_lineage_graph_document-order_free :
    (i j : LineageInput) (d e : LineageDocument)
    → create_lineage_graph_document i ≡ ok d
    → create_lineage_graph_document j ≡ ok e
    → ((t : Text) → In t i.subject_ids ↔ In t j.subject_ids)
    → ((x : LineageEdge) → In x i.edges ↔ In x j.edges)
    → ((g : Text) → In g i.gaps ↔ In g j.gaps)
    → d ≡ e
create_lineage_graph_document-order_free i j d e h k subjects edges gaps =
    let (a, same) = (create_lineage_graph_document-ok_iff i d).0 h in
    let (b, also) = (create_lineage_graph_document-ok_iff j e).0 k in
    let ids : sort_by (λ t. t) i.subject_ids ≡ sort_by (λ t. t) j.subject_ids =
      sort_by-eq (λ t. t) i.subject_ids j.subject_ids (rw (map_id i.subject_ids) a.subjects_differ)
        (rw (map_id j.subject_ids) b.subjects_differ) subjects in
    let es : sort_by edge_key i.edges ≡ sort_by edge_key j.edges =
      sort_by-eq edge_key i.edges j.edges a.edges_differ b.edges_differ edges in
    let gs : sort_by (λ t. t) i.gaps ≡ sort_by (λ t. t) j.gaps =
      sort_by-eq (λ t. t) i.gaps j.gaps (rw (map_id i.gaps) a.gaps_differ)
        (rw (map_id j.gaps) b.gaps_differ) gaps in
    let one : in_order i ≡ in_order j =
      λ n. record { subject_ids = ids n; edges = es n; gaps = gs n } in
    same ∙ (ap (λ x. record { schema_version = reader_version; input = x }) one ∙ sym also)
