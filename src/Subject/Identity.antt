-- ===== src/Subject/Identity.antt =====
-- packages/shared/src/subject.ts: the identity of a subject, `createSubject` and `parseSubject`.
pub mod Unicode
pub mod Texts
use verglos_cli.Prelude.{ℕ, not, Option, none, some, List, [], ◌∷◌, ◌++◌, if◌then◌else◌}
use verglos_cli.Text.{Text, codes, text_eq}
use verglos_cli.Formats.{Algorithm, sha256, sha512, ContentDigest, subject_id}
use verglos_cli.Contracts.{
  Parsed, ok, invalid, ◌>>=◌, accept_if_clean, assert_compatible, is_version, raise, reader_version,
}
use verglos_cli.Schema.Json.{Json, json_string, json_bool, json_object, members}
use verglos_cli.Schema.Canonical.{canonicalize_json}
use verglos_cli.Subject.{
  GitAlgorithm, git_sha1, git_sha256, GitObjectId, SbomFormat, cyclonedx_json, cyclonedx_xml,
  spdx_json, spdx_tag_value, SubjectPayload, repository_tree, package_payload, filesystem, sbom,
  artifact, oci_manifest, oci_index, kind_text, Subject,
}
use verglos_cli.Subject.Refine.{
  SubjectIssue, malformed_version, malformed_id, identity_mismatch, or_throw, compact,
  platform_json, refine_subject_payload, payload_fields, malformed_fields, parse_payload,
}

abbrev pub algorithm_text : Algorithm → Text
algorithm_text sha256 = codes "sha256"
algorithm_text sha512 = codes "sha512"

abbrev pub git_algorithm_text : GitAlgorithm → Text
git_algorithm_text git_sha1 = codes "sha1"
git_algorithm_text git_sha256 = codes "sha256"

abbrev pub digest_of : Text → Text → Json
digest_of algorithm value =
    json_object (
      members
        ((codes "algorithm", json_string algorithm) ∷ (codes "value", json_string value) ∷ []))

abbrev pub digest_json : ContentDigest → Json
digest_json d = digest_of (algorithm_text d.algorithm) d.value

abbrev pub git_json : GitObjectId → Json
git_json g = digest_of (git_algorithm_text g.algorithm) g.value

abbrev pub optional_digest : Option ContentDigest → Option Json
optional_digest none = none
optional_digest (some d) = some (digest_json d)

abbrev pub format_text : SbomFormat → Text
format_text cyclonedx_json = codes "cyclonedx-json"
format_text cyclonedx_xml = codes "cyclonedx-xml"
format_text spdx_json = codes "spdx-json"
format_text spdx_tag_value = codes "spdx-tag-value"

-- `subjectIdentityProjection`, less the member `kind` that each case begins with.
abbrev pub identity_entries : SubjectPayload → List (Text × Option Json)
identity_entries (repository_tree r) =
    (codes "vcs", some (json_string (codes "git")))
    ∷ (codes "commit", some (git_json r.commit))
    ∷ (codes "tree", some (git_json r.tree))
    ∷ (codes "dirty", some (json_bool r.dirty))
    ∷ (codes "worktreeDigest", optional_digest r.worktree_digest)
    ∷ []
identity_entries (package_payload r) =
    (codes "ecosystem", some (json_string r.ecosystem))
    ∷ (codes "name", some (json_string r.name))
    ∷ (codes "version", some (json_string r.version))
    ∷ (codes "digest", some (digest_json r.digest))
    ∷ []
identity_entries (filesystem r) =
    (codes "treeDigest", some (digest_json r.tree_digest))
    ∷ (codes "ignorePolicyDigest", some (digest_json r.ignore_policy_digest))
    ∷ []
identity_entries (sbom r) =
    (codes "format", some (json_string (format_text r.format)))
    ∷ (codes "documentDigest", some (digest_json r.document_digest))
    ∷ []
identity_entries (artifact r) = (codes "digest", some (digest_json r.digest)) ∷ []
identity_entries (oci_manifest r) =
    (codes "digest", some (digest_json r.digest))
    ∷ (codes "platform", some (platform_json r.platform))
    ∷ []
identity_entries (oci_index r) = (codes "digest", some (digest_json r.digest)) ∷ []

unfoldable pub subject_identity_projection : SubjectPayload → Json
subject_identity_projection p =
    json_object
      (members (compact ((codes "kind", some (json_string (kind_text p))) ∷ identity_entries p)))

-- `urn:verglos:subject:${kind}:sha256:${digest}`
abbrev pub subject_urn : Text → Text → Text
subject_urn kind digest = codes "urn:verglos:subject:" ++ (kind ++ (codes ":sha256:" ++ digest))

module _ (is_ip : Text → ℕ) (sha256_hex : Text → Text) where
  -- `createSubjectId`
  unfoldable pub create_subject_id : SubjectPayload → Parsed SubjectIssue Text
  create_subject_id payload = do
    parsed ← parse_payload is_ip payload
    t ← or_throw (canonicalize_json (subject_identity_projection parsed))
    ok (subject_urn (kind_text parsed) (sha256_hex t))

  -- `parseWithSubjectError(SubjectDocumentSchema, value)`
  unfoldable pub parse_document : Subject → Parsed SubjectIssue Subject
  unfolding payload_fields
  parse_document s = do
    refined ← refine_subject_payload s.payload
    accept_if_clean
        (raise (
            (not (is_version s.schema_version), malformed_version)
            ∷ (not (subject_id s.subject_id), malformed_id)
            ∷ (not (payload_fields is_ip s.payload), malformed_fields)
            ∷ [])
          ++ refined)
        s

  abbrev pub check_identity : Subject → Text → Parsed SubjectIssue Subject
  check_identity s expected =
      if text_eq s.subject_id expected then ok s else invalid (identity_mismatch ∷ [])

  -- `parseSubject`
  unfoldable pub parse_subject : Subject → Parsed SubjectIssue Subject
  parse_subject value = do
    document ← parse_document value
    subject ← assert_compatible document.schema_version document
    expected ← create_subject_id subject.payload
    check_identity subject expected

  -- `createSubject`
  unfoldable pub create_subject : SubjectPayload → Parsed SubjectIssue Subject
  create_subject payload = do
    parsed ← parse_payload is_ip payload
    id ← create_subject_id parsed
    parse_subject record { schema_version = reader_version; subject_id = id; payload = parsed }
