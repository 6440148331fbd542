-- ===== src/LineageGraph.antt =====
-- packages/shared/src/lineage-graph.ts: the document of a lineage graph, how it is put in order, and
-- what is refused. `buildLineageGraph`, which parses whole subjects, is not in the model.
pub mod Order
pub mod Laws
pub mod Create
mod Tests
use verglos_cli.Prelude.{
  Bool, false, not, ◌&&◌, ◌||◌, Option, none, some, List, [], ◌∷◌, ◌++◌, map, leb, length, any, all,
}
use verglos_cli.Text.{Text, codes, text_ltb}
use verglos_cli.Text.Sets.{has, repeats}
use verglos_cli.Text.Sorting.{sort_by}
use verglos_cli.Formats.{subject_id, is_sha256_ref, length_in}
use verglos_cli.Contracts.{
  if_present, size_in, raise, Parsed, ◌>>=◌, accept_if_clean, assert_compatible, is_version,
  reader_version,
}

-- LINEAGE_RELATIONS
pub data Relation : Type 0 where
  source_commit commit_tree build_input build_output sbom_subject : Relation
  image_artifact artifact_output : Relation

-- LINEAGE_STATUSES
pub data LineageStatus : Type 0 where
  edge_matched edge_mismatched unavailable unverifiable : LineageStatus

pub record LineageEdge : Type 0 where
  pub from_subject_id : Text
  pub to_subject_id : Text
  pub relation : Relation
  pub status : LineageStatus
  pub evidence_ref : Option Text

-- LineageGraphDocument, and what createLineageGraphDocument is given of it.
pub record LineageInput : Type 0 where
  pub subject_ids : List Text
  pub edges : List LineageEdge
  pub gaps : List Text

pub record LineageDocument : Type 0 where
  pub schema_version : Text
  pub input : LineageInput

pub data LineageIssue : Type 0 where
  bad_field : Text → LineageIssue
  subjects_out_of_order : LineageIssue
  edges_out_of_order : LineageIssue
  gaps_out_of_order : LineageIssue
  edge_leaves_subjects : LineageIssue

abbrev pub relation_text : Relation → Text
relation_text source_commit = codes "source-commit"
relation_text commit_tree = codes "commit-tree"
relation_text build_input = codes "build-input"
relation_text build_output = codes "build-output"
relation_text sbom_subject = codes "sbom-subject"
relation_text image_artifact = codes "image-artifact"
relation_text artifact_output = codes "artifact-output"

abbrev pub status_text : LineageStatus → Text
status_text edge_matched = codes "matched"
status_text edge_mismatched = codes "mismatched"
status_text unavailable = codes "unavailable"
status_text unverifiable = codes "unverifiable"

abbrev ref_text : Option Text → Text
ref_text none = []
ref_text (some r) = r

-- The text by which edges are compared.
abbrev pub edge_key : LineageEdge → Text
edge_key e =
    e.from_subject_id
    ++ (codes ":"
        ++ (e.to_subject_id
            ++ (codes ":"
                ++ (relation_text e.relation
                    ++ (codes ":"
                        ++ (status_text e.status ++ (codes ":" ++ ref_text e.evidence_ref)))))))

abbrev pub edge_ok : LineageEdge → Bool
edge_ok e =
    subject_id e.from_subject_id
    && (subject_id e.to_subject_id && if_present is_sha256_ref e.evidence_ref)

abbrev pub lineage_field_rows : LineageDocument → List (Bool × LineageIssue)
lineage_field_rows d =
    (not (is_version d.schema_version), bad_field (codes "schemaVersion"))
    ∷ (not (size_in 1 10000 d.input.subject_ids), bad_field (codes "subjectIds"))
    ∷ (not (all subject_id d.input.subject_ids), bad_field (codes "subjectIds"))
    ∷ (not (leb (length d.input.edges) 20000), bad_field (codes "edges"))
    ∷ (not (all edge_ok d.input.edges), bad_field (codes "edges"))
    ∷ (not (leb (length d.input.gaps) 20000), bad_field (codes "gaps"))
    ∷ (not (all (length_in 1 512) d.input.gaps), bad_field (codes "gaps"))
    ∷ []

unfoldable pub field_issues : LineageDocument → List LineageIssue
field_issues d = raise (lineage_field_rows d)

-- `texts.some((text, index) => index > 0 && texts[index - 1] > text)`
abbrev pub descends : List Text → Bool
descends [] = false
descends (s ∷ []) = false
descends (s ∷ t ∷ ts) = text_ltb t s || descends (t ∷ ts)

abbrev pub out_of_order : List Text → Bool
out_of_order ts = repeats ts || descends ts

abbrev pub leaves : List Text → LineageEdge → Bool
leaves subjects e = not (has e.from_subject_id subjects) || not (has e.to_subject_id subjects)

-- The checks after the fields, of which the first that fails is thrown.
abbrev pub order_rows : LineageInput → List (Bool × LineageIssue)
order_rows i =
    (out_of_order i.subject_ids, subjects_out_of_order)
    ∷ (out_of_order (map edge_key i.edges), edges_out_of_order)
    ∷ (out_of_order i.gaps, gaps_out_of_order)
    ∷ (any (leaves i.subject_ids) i.edges, edge_leaves_subjects)
    ∷ []

abbrev pub throw_first : {A : Type 0} → List LineageIssue → A → Parsed LineageIssue A
throw_first [] a = accept_if_clean [] a
throw_first (i ∷ is) a = accept_if_clean (i ∷ []) a

unfoldable pub throw_disorder : LineageDocument → Parsed LineageIssue LineageDocument
throw_disorder d = throw_first (raise (order_rows d.input)) d

-- `parseLineageGraphDocument`
unfoldable pub parse_lineage_graph_document : LineageDocument → Parsed LineageIssue LineageDocument
parse_lineage_graph_document d = do
  parsed ← accept_if_clean (field_issues d) d
  readable ← assert_compatible parsed.schema_version parsed
  throw_disorder readable

abbrev pub in_order : LineageInput → LineageInput
in_order i = record {
  subject_ids = sort_by (λ t. t) i.subject_ids;
  edges = sort_by edge_key i.edges;
  gaps = sort_by (λ t. t) i.gaps;
}

abbrev pub document_of : LineageInput → LineageDocument
document_of i = record { schema_version = reader_version; input = in_order i }

-- `createLineageGraphDocument`
unfoldable pub create_lineage_graph_document : LineageInput → Parsed LineageIssue LineageDocument
create_lineage_graph_document i = parse_lineage_graph_document (document_of i)
