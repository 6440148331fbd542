-- ===== src/ReleaseDiff/Blockers.antt =====
-- packages/shared/src/release-diff.ts: what keeps two snapshots from being compared.
use verglos_cli.Prelude.{
  ℕ, ◌+◌, Bool, true, false, not, ◌||◌, Option, none, some, List, [], ◌∷◌, ◌++◌, ◌==◌, length,
  filter,
}
use verglos_cli.Text.{Text, codes}
use verglos_cli.Text.Sets.{set_of}
use verglos_cli.Contracts.{Parsed, ok, ◌>>=◌, raise}
use verglos_cli.Schema.Json.{Json, json_string, json_object, Members, no_members, member}
use verglos_cli.Schema.Canonical.{CanonicalError, canonicalize_json}
use verglos_cli.LineageGraph.{LineageEdge, edge_matched, relation_text, status_text}
use verglos_cli.ReleaseDiff.{ReleaseDiff}

-- The `status` of a snapshot's coverage; without coverage evidence it is unavailable.
pub data CoverageStatus : Type 0 where
  coverage_complete coverage_incomplete coverage_unavailable : CoverageStatus

-- A snapshot's coverage and lineage.
pub record Evidence : Type 0 where
  pub coverage : CoverageStatus
  pub edges : List LineageEdge
  pub gaps : List Text

pub data ComparisonBlocker : Type 0 where
  identity_blocker : ComparisonBlocker
  unavailable_blocker : ComparisonBlocker
  incomplete_blocker : ComparisonBlocker
  severity_blocker : ℕ → ComparisonBlocker
  lineage_blocker : ℕ → ComparisonBlocker

abbrev pub is_unavailable_coverage : CoverageStatus → Bool
is_unavailable_coverage coverage_unavailable = true
is_unavailable_coverage _ = false

abbrev pub is_incomplete_coverage : CoverageStatus → Bool
is_incomplete_coverage coverage_incomplete = true
is_incomplete_coverage _ = false

abbrev pub is_unmatched : LineageEdge → Bool
is_unmatched e = elim e.status [ edge_matched ↦ false | _ ↦ true ]

abbrev ref_member : Option Text → Members
ref_member none = no_members
ref_member (some r) = member (codes "evidenceRef") (json_string r) no_members

-- An edge as JSON, with the keys in the order of the object.
abbrev pub edge_json : LineageEdge → Json
edge_json e = json_object (
    member (codes "fromSubjectId") (json_string e.from_subject_id) (
      member (codes "toSubjectId") (json_string e.to_subject_id) (
        member (codes "relation") (json_string (relation_text e.relation)) (
          member (codes "status") (json_string (status_text e.status))
            (ref_member e.evidence_ref)))))

-- `edges.map((edge) => canonicalizeJson(edge))`
abbrev pub edge_texts : List LineageEdge → Parsed CanonicalError (List Text)
edge_texts [] = ok []
edge_texts (e ∷ es) = do t ← canonicalize_json (edge_json e); ts ← edge_texts es; ok (t ∷ ts)

abbrev pub blocker_rows : ReleaseDiff → Evidence → Evidence → ℕ → List (Bool × ComparisonBlocker)
blocker_rows d before after unresolved =
    (d.identity_changed, identity_blocker)
    ∷ (
      is_unavailable_coverage before.coverage || is_unavailable_coverage after.coverage,
      unavailable_blocker,
    )
    ∷ (
      is_incomplete_coverage before.coverage || is_incomplete_coverage after.coverage,
      incomplete_blocker,
    )
    ∷ (not (length d.severity_unassessed == 0), severity_blocker (length d.severity_unassessed))
    ∷ (not (unresolved == 0), lineage_blocker unresolved)
    ∷ []

-- The `comparisonBlockers` of `diffReleaseSnapshots`.
unfoldable pub comparison_blockers :
    ReleaseDiff → Evidence → Evidence → Parsed CanonicalError (List ComparisonBlocker)
comparison_blockers d before after = do
  texts ← edge_texts (filter is_unmatched (before.edges ++ after.edges))
  ok (
      raise (
        blocker_rows d before after
          (length (set_of texts) + length (set_of (before.gaps ++ after.gaps)))))
