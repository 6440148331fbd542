-- ===== src/LineageGraph/Tests.antt =====
-- Runs of the lineage documents, and their theorems at them.
use verglos_cli.Prelude.{◌≡◌, refl, ◌↔◌, inl, inr, some, [], ◌∷◌, ◌++◌, In}
use verglos_cli.Text.{Text, codes}
use verglos_cli.Contracts.{ok, invalid}
use verglos_cli.Samples.{hex64, some_subject, formats}
use verglos_cli.LineageGraph.{
  build_output, edge_matched, LineageEdge, LineageInput, subjects_out_of_order,
  edge_leaves_subjects, field_issues, throw_disorder, parse_lineage_graph_document, in_order,
  document_of, create_lineage_graph_document,
}
use verglos_cli.LineageGraph.Laws.{IsCanonical, parse_lineage_graph_document-IsCanonical}
use verglos_cli.LineageGraph.Create.{
  IsSound, create_lineage_graph_document-ok_iff, create_lineage_graph_document-order_free,
}

abbrev some_package : Text
some_package = codes "urn:verglos:subject:package:sha256:" ++ hex64

abbrev built : LineageEdge
built = record {
  from_subject_id = some_package;
  to_subject_id = some_subject;
  relation = build_output;
  status = edge_matched;
  evidence_ref = some (codes "sha256:" ++ hex64);
}

abbrev two_subjects : LineageInput
two_subjects = record {
  subject_ids = some_package ∷ some_subject ∷ [];
  edges = built ∷ [];
  gaps = codes "no source" ∷ [];
}

abbrev flipped : LineageInput
flipped = record two_subjects { subject_ids = some_subject ∷ some_package ∷ [] }

parsing : Unit {0}
unfolding formats field_issues throw_disorder parse_lineage_graph_document
    create_lineage_graph_document
parsing = tt

create_test : create_lineage_graph_document two_subjects ≡ ok (document_of two_subjects)
unfolding parsing
create_test = refl

parse_test : parse_lineage_graph_document (document_of two_subjects) ≡ ok (document_of two_subjects)
unfolding parsing
parse_test = refl

flipped_test : create_lineage_graph_document flipped ≡ ok (document_of two_subjects)
unfolding parsing
flipped_test = refl

unsorted_test :
    parse_lineage_graph_document (record (document_of two_subjects) { input = two_subjects })
    ≡ invalid (subjects_out_of_order ∷ [])
unfolding parsing
unsorted_test = refl

dangling_test :
    create_lineage_graph_document (record two_subjects { subject_ids = some_subject ∷ [] })
    ≡ invalid (edge_leaves_subjects ∷ [])
unfolding parsing
dangling_test = refl

parse_lineage_graph_document-IsCanonical_example :
    (document_of two_subjects ≡ document_of two_subjects) × IsCanonical (in_order two_subjects)
parse_lineage_graph_document-IsCanonical_example =
    parse_lineage_graph_document-IsCanonical (document_of two_subjects) (document_of two_subjects)
      parse_test

create_lineage_graph_document-ok_iff_example :
    (create_lineage_graph_document two_subjects ≡ ok (document_of two_subjects))
    ↔ (IsSound two_subjects × (document_of two_subjects ≡ document_of two_subjects))
create_lineage_graph_document-ok_iff_example =
    create_lineage_graph_document-ok_iff two_subjects (document_of two_subjects)

swap : (t a b : Text) → In t (a ∷ b ∷ []) → In t (b ∷ a ∷ [])
swap t a b (inl e) = inr (inl e)
swap t a b (inr (inl e)) = inl e
swap t a b (inr (inr n)) = absurd n

swapped : (t : Text) → In t two_subjects.subject_ids ↔ In t flipped.subject_ids
swapped t = (swap t some_package some_subject, swap t some_subject some_package)

create_lineage_graph_document-order_free_example :
    document_of two_subjects ≡ document_of two_subjects
create_lineage_graph_document-order_free_example =
    create_lineage_graph_document-order_free two_subjects flipped (document_of two_subjects)
      (document_of two_subjects) create_test flipped_test swapped (λ x. ((λ h. h), λ h. h))
      (λ g. ((λ h. h), λ h. h))
