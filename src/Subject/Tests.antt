-- ===== src/Subject/Tests.antt =====
-- Subjects at concrete inputs.
use verglos_cli.Prelude.{
  ℕ, ◌≤◌, ◌≡◌, refl, Bool, true, false, Option, none, some, [], ◌∷◌, length, All,
}
use verglos_cli.Text.{Text, codes}
use verglos_cli.Text.Sets.{repeats}
use verglos_cli.Samples.{hex64, some_digest, formats}
use verglos_cli.Contracts.{ok, invalid}
use verglos_cli.Schema.Version.{split_on}
use verglos_cli.Schema.Canonical.{canonicalize_json, invalid_unicode}
use verglos_cli.Subject.{
  git_sha256, no_submodules, OciPlatform, SubjectPayload, repository_tree, package_payload,
  oci_manifest, oci_index, Subject,
}
use verglos_cli.Subject.Path.{relative_subject_path}
use verglos_cli.Subject.Path.Laws.{
  IsBelow, visits, walk, innermost_first, relative_subject_path-IsBelow,
}
use verglos_cli.Subject.Fields.{
  oci_repository, oci_tag, platform_token, ecosystem_name, media_type, bounded_text, git_object_id,
  oci_platform, repository_tree_fields, package_url, package_fields, filesystem_fields, sbom_fields,
  artifact_fields, oci_reference, oci_manifest_fields, oci_index_fields,
}
use verglos_cli.Subject.Registry.{is_registry}
use verglos_cli.Subject.Refine.{
  dirty_without_digest, repeated_platform, not_canonical, platform_json, payload_fields,
  parse_payload,
}
use verglos_cli.Subject.Identity.{
  subject_identity_projection, create_subject_id, parse_document, parse_subject, create_subject,
}
use verglos_cli.Subject.Laws.{create_subject-parse}

-- To unfold the checks of subjects.
unfoldable subjects : Unit {0}
unfolding oci_repository oci_tag platform_token ecosystem_name media_type bounded_text git_object_id
    oci_platform repository_tree_fields package_url package_fields filesystem_fields sbom_fields
    artifact_fields oci_reference oci_manifest_fields oci_index_fields is_registry platform_json
    payload_fields parse_payload subject_identity_projection create_subject_id parse_document
    parse_subject create_subject relative_subject_path formats canonicalize_json repeats
subjects = tt

abbrev no_ip : Text → ℕ
no_ip s = 0

abbrev same_hash : Text → Text
same_hash s = hex64

abbrev some_package : SubjectPayload
some_package = package_payload record {
  ecosystem = codes "npm";
  name = codes "left-pad";
  version = codes "1.3.0";
  digest = some_digest;
  purl = some (codes "pkg:npm/left-pad@1.3.0");
}

abbrev linux : Option Text → OciPlatform
linux version = record {
  os = codes "linux";
  architecture = codes "amd64";
  variant = none;
  os_version = version;
  os_features = none;
}

abbrev some_tree : Bool → SubjectPayload
some_tree dirty = repository_tree record {
  commit = record { algorithm = git_sha256; value = hex64 };
  tree = record { algorithm = git_sha256; value = hex64 };
  dirty = dirty;
  worktree_digest = none;
  submodule_state = no_submodules;
  shallow = false;
}

abbrev twice : SubjectPayload
twice = oci_index record {
  reference = record { registry = codes "ghcr.io"; repository = codes "a/b"; tag = none };
  digest = some_digest;
  size = none;
  manifests =
      record { digest = some_digest; size = none; platform = linux none }
      ∷ record { digest = some_digest; size = some 3; platform = linux none }
      ∷ [];
}

abbrev odd_version : SubjectPayload
odd_version = oci_manifest record {
  reference = record { registry = codes "ghcr.io"; repository = codes "a/b"; tag = none };
  digest = some_digest;
  size = none;
  platform = linux (some (0xd800 ∷ []));
}

payload_tests :
    (parse_payload no_ip (some_tree true) ≡ invalid (dirty_without_digest ∷ []))
    × (parse_payload no_ip (some_tree false) ≡ ok (some_tree false))
    × (parse_payload no_ip twice ≡ invalid (repeated_platform 1 ∷ []))
    × (media_type (codes "application/json;a=b") ≡ true)
    × (media_type (codes "application/") ≡ false)
    × (oci_repository (codes "library/my_app.x") ≡ true)
    × (oci_repository (codes "library//x") ≡ false)
unfolding subjects
payload_tests = (refl, refl, refl, refl, refl, refl, refl)

-- A version of an operating system with half of a surrogate pair is accepted, and has no identity.
odd_version-throws :
    (parse_payload no_ip odd_version ≡ ok odd_version)
    × (create_subject_id no_ip same_hash odd_version ≡ invalid (not_canonical invalid_unicode ∷ []))
unfolding subjects
odd_version-throws = (refl, refl)

create_subject-parse_example :
    (s : Subject) × (create_subject no_ip same_hash some_package ≡ ok s)
    × (s.payload ≡ some_package)
    × (create_subject_id no_ip same_hash some_package ≡ ok s.subject_id)
    × (parse_subject no_ip same_hash s ≡ ok s)
unfolding subjects
create_subject-parse_example = create_subject-parse no_ip same_hash some_package (λ t. refl) refl tt

abbrev some_path : Text
some_path = codes "packages/cli/index.ts"

relative_subject_path-IsBelow_example :
    (length some_path ≤ 4096)
    × (length (split_on b'/' some_path) ≤ 2048)
    × All (IsBelow (codes "root" ∷ [])) (visits (codes "root" ∷ []) (split_on b'/' some_path))
    × (walk (codes "root" ∷ []) (split_on b'/' some_path)
        ≡ innermost_first (split_on b'/' some_path) (codes "root" ∷ []))
unfolding subjects
relative_subject_path-IsBelow_example =
    relative_subject_path-IsBelow some_path (codes "root" ∷ []) refl
