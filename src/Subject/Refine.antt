-- ===== src/Subject/Refine.antt =====
-- packages/shared/src/subject.ts: SubjectPayloadSchema, with `refineSubjectPayload`.
use verglos_cli.Prelude.{ℕ, suc, Bool, not, ◌&&◌, Option, none, some, List, [], ◌∷◌, ◌++◌, map}
use verglos_cli.Text.{Text, codes}
use verglos_cli.Text.Sets.{has}
use verglos_cli.Contracts.{Parsed, ok, invalid, unreadable, ◌>>=◌, accept_if_clean, raise, is_some}
use verglos_cli.Schema.Json.{Json, json_string, json_array, json_object, strings, members}
use verglos_cli.Schema.Canonical.{CanonicalError, canonicalize_json}
use verglos_cli.Subject.{
  OciPlatform, IndexedManifest, RepositoryTree, SubjectPayload, repository_tree, package_payload,
  filesystem, sbom, artifact, oci_manifest, oci_index,
}
use verglos_cli.Subject.Fields.{
  repository_tree_fields, package_fields, filesystem_fields, sbom_fields, artifact_fields,
  oci_manifest_fields, oci_index_fields,
}
use verglos_cli.Subject.Registry.{is_registry}

-- What the functions on subjects throw; `not_canonical` is what `canonicalizeJson` throws.
pub data SubjectIssue : Type 0 where
  malformed_fields dirty_without_digest clean_with_digest : SubjectIssue
  repeated_platform : ℕ → SubjectIssue
  malformed_version malformed_id identity_mismatch : SubjectIssue
  not_canonical : CanonicalError → SubjectIssue

abbrev pub or_throw {ℓ} : {A : Type ℓ} → Parsed CanonicalError A → Parsed SubjectIssue A
or_throw (ok a) = ok a
or_throw (invalid is) = invalid (map not_canonical is)
or_throw (unreadable c) = unreadable c

-- `compact`: the entries that are not undefined.
abbrev pub compact : List (Text × Option Json) → List (Text × Json)
compact [] = []
compact ((k, none) ∷ es) = compact es
compact ((k, some v) ∷ es) = (k, v) ∷ compact es

abbrev pub optional_text : Option Text → Option Json
optional_text none = none
optional_text (some s) = some (json_string s)

abbrev pub optional_texts : Option (List Text) → Option Json
optional_texts none = none
optional_texts (some ts) = some (json_array (strings ts))

-- A platform as JSON; an absent field is no member of what the schema returns.
abbrev pub platform_entries : OciPlatform → List (Text × Option Json)
platform_entries p =
    (codes "os", some (json_string p.os))
    ∷ (codes "architecture", some (json_string p.architecture))
    ∷ (codes "variant", optional_text p.variant)
    ∷ (codes "osVersion", optional_text p.os_version)
    ∷ (codes "osFeatures", optional_texts p.os_features)
    ∷ []

unfoldable pub platform_json : OciPlatform → Json
platform_json p = json_object (members (compact (platform_entries p)))

-- `requireDirtyDigest`
abbrev pub dirty_rows : RepositoryTree → List (Bool × SubjectIssue)
dirty_rows r =
    (r.dirty && not (is_some r.worktree_digest), dirty_without_digest)
    ∷ (not r.dirty && is_some r.worktree_digest, clean_with_digest)
    ∷ []

-- `requireDistinctPlatforms`: the loop at its n-th manifest, with the keys it has seen.
abbrev pub platform_issues :
    List Text → ℕ → List IndexedManifest → Parsed SubjectIssue (List SubjectIssue)
platform_issues seen n [] = ok []
platform_issues seen n (m ∷ ms) = do
  key ← or_throw (canonicalize_json (platform_json m.platform))
  rest ← platform_issues (key ∷ seen) (suc n) ms
  ok (raise ((has key seen, repeated_platform n) ∷ []) ++ rest)

-- `refineSubjectPayload`
abbrev pub refine_subject_payload : SubjectPayload → Parsed SubjectIssue (List SubjectIssue)
refine_subject_payload (repository_tree r) = ok (raise (dirty_rows r))
refine_subject_payload (oci_index r) = platform_issues [] 0 r.manifests
refine_subject_payload _ = ok []

module _ (is_ip : Text → ℕ) where
  -- The schemas of the seven kinds.
  unfoldable pub payload_fields : SubjectPayload → Bool
  payload_fields (repository_tree r) = repository_tree_fields r
  payload_fields (package_payload r) = package_fields r
  payload_fields (filesystem r) = filesystem_fields r
  payload_fields (sbom r) = sbom_fields r
  payload_fields (artifact r) = artifact_fields r
  payload_fields (oci_manifest r) = oci_manifest_fields (is_registry is_ip) r
  payload_fields (oci_index r) = oci_index_fields (is_registry is_ip) r

  -- `parseWithSubjectError(SubjectPayloadSchema, payload)`
  unfoldable pub parse_payload : SubjectPayload → Parsed SubjectIssue SubjectPayload
  unfolding payload_fields
  parse_payload payload = do
    refined ← refine_subject_payload payload
    accept_if_clean (raise ((not (payload_fields payload), malformed_fields) ∷ []) ++ refined)
        payload
