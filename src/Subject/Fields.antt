-- ===== src/Subject/Fields.antt =====
-- packages/shared/src/subject.ts: the regular expressions and bounds of the fields.
use verglos_cli.Prelude.{
  ℕ, Bool, true, false, not, ◌&&◌, ◌||◌, Option, none, some, [], ◌∷◌, leb, ◌==◌, if◌then◌else◌,
  length, any, all,
}
use verglos_cli.Text.{Text, codes, starts_with}
use verglos_cli.Formats.{
  in_range, is_digit, is_lower, is_hex, is_alnum, fits, times, labels, length_in, content_digest,
}
use verglos_cli.Contracts.{if_present, size_in}
use verglos_cli.Schema.Canonical.{valid_unicode}
use verglos_cli.ReleaseRollback.{is_space}
use verglos_cli.Subject.{
  GitAlgorithm, git_sha1, git_sha256, GitObjectId, OciPlatform, RepositoryTree, Package, Filesystem,
  Sbom, Artifact, OciReference, OciManifest, IndexedManifest, OciIndex,
}
use verglos_cli.Subject.Path.{no_controls, is_letter, relative_subject_path}

-- `[A-Za-z0-9]`
abbrev pub is_letter_or_digit : ℕ → Bool
is_letter_or_digit c = is_letter c || is_digit c

-- `\w`
abbrev pub is_word_unit : ℕ → Bool
is_word_unit c = is_letter_or_digit c || c == b'_'

-- `^[head][rest]{0,n}$`
abbrev pub headed : (ℕ → Bool) → (ℕ → Bool) → ℕ → Text → Bool
headed head rest n [] = false
headed head rest n (c ∷ s) = head c && (all rest s && leb (length s) n)

-- OCI_REPOSITORY
unfoldable pub oci_repository : Text → Bool
oci_repository s = labels (λ c. c == b'.' || (c == b'_' || (c == b'-' || c == b'/'))) true s

-- OCI_TAG
unfoldable pub oci_tag : Text → Bool
oci_tag = headed is_word_unit (λ c. is_word_unit c || (c == b'.' || c == b'-')) 127

-- PLATFORM_TOKEN
unfoldable pub platform_token : Text → Bool
platform_token =
    headed is_letter_or_digit (λ c. is_letter_or_digit c || (c == b'.' || (c == b'_' || c == b'-')))
      63

-- ECOSYSTEM
unfoldable pub ecosystem_name : Text → Bool
ecosystem_name = headed is_lower (λ c. is_alnum c || c == b'-') 31

-- `[A-Za-z0-9!#$&^_.+-]`
abbrev is_media_unit : ℕ → Bool
is_media_unit c = is_letter_or_digit c || any (◌==◌ c) (codes "!#$&^_.+-")

-- What MEDIA_TYPE still expects: the first unit of the type, more of it, the first of the subtype,
-- more of it, the first of the parameters, more of them.
pub data MediaStage : Type 0 where
  type_head type_rest subtype_head subtype_rest parameter_head parameter_rest : MediaStage

abbrev is_media_end : MediaStage → Bool
is_media_end subtype_rest = true
is_media_end parameter_rest = true
is_media_end _ = false

abbrev media_step : MediaStage → ℕ → Option MediaStage
media_step type_head c = if is_media_unit c then some type_rest else none
media_step type_rest c =
    if is_media_unit c then some type_rest else if c == b'/' then some subtype_head else none
media_step subtype_head c = if is_media_unit c then some subtype_rest else none
media_step subtype_rest c =
    if is_media_unit c then some subtype_rest else if c == b';' then some parameter_head else none
media_step parameter_head c = if in_range 0x20 0x7e c then some parameter_rest else none
media_step parameter_rest c = if in_range 0x20 0x7e c then some parameter_rest else none

abbrev media_from : Option MediaStage → Text → Bool
media_from none s = false
media_from (some t) [] = is_media_end t
media_from (some t) (c ∷ s) = media_from (media_step t c) s

-- MEDIA_TYPE, with its length.
unfoldable pub media_type : Text → Bool
media_type s = length_in 3 255 s && media_from (some type_head) s

-- `boundedText(max)`
unfoldable pub bounded_text : ℕ → Text → Bool
bounded_text max s = length_in 1 max s && (no_controls s && valid_unicode s)

-- `z.number().int().nonnegative().safe()`
abbrev pub is_safe_count : ℕ → Bool
is_safe_count n = leb n 9007199254740991

abbrev pub git_digits : GitAlgorithm → ℕ
git_digits git_sha1 = 40
git_digits git_sha256 = 64

-- GitObjectIdSchema
unfoldable pub git_object_id : GitObjectId → Bool
git_object_id g = fits (times (git_digits g.algorithm) is_hex) g.value

-- OciPlatformSchema
unfoldable pub oci_platform : OciPlatform → Bool
oci_platform p =
    platform_token p.os
    && (platform_token p.architecture
        && (if_present platform_token p.variant
            && (if_present (λ v. length_in 1 128 v && no_controls v) p.os_version
                && if_present (λ fs. size_in 0 64 fs && all platform_token fs) p.os_features)))

-- The fields of the seven kinds.
unfoldable pub repository_tree_fields : RepositoryTree → Bool
repository_tree_fields r =
    git_object_id r.commit && (git_object_id r.tree && if_present content_digest r.worktree_digest)

unfoldable pub package_url : Text → Bool
package_url s = length_in 5 2048 s && (starts_with (codes "pkg:") s && not (any is_space s))

unfoldable pub package_fields : Package → Bool
package_fields r =
    ecosystem_name r.ecosystem
    && (bounded_text 512 r.name
        && (bounded_text 256 r.version
            && (content_digest r.digest && if_present package_url r.purl)))

unfoldable pub filesystem_fields : Filesystem → Bool
filesystem_fields r =
    content_digest r.tree_digest
    && (content_digest r.ignore_policy_digest
        && (is_safe_count r.entry_count && if_present relative_subject_path r.scope_path))

unfoldable pub sbom_fields : Sbom → Bool
sbom_fields r = content_digest r.document_digest && if_present (bounded_text 2048) r.serial_number

unfoldable pub artifact_fields : Artifact → Bool
artifact_fields r =
    content_digest r.digest
    && (is_safe_count r.size
        && (media_type r.media_type && if_present relative_subject_path r.path))

module _ (is_registry : Text → Bool) where
  unfoldable pub oci_reference : OciReference → Bool
  oci_reference r =
      length_in 1 255 r.registry
      && (is_registry r.registry
          && (length_in 1 255 r.repository
              && (oci_repository r.repository && if_present oci_tag r.tag)))

  unfoldable pub oci_manifest_fields : OciManifest → Bool
  oci_manifest_fields r =
      oci_reference r.reference
      && (content_digest r.digest && (if_present is_safe_count r.size && oci_platform r.platform))

  abbrev indexed_manifest : IndexedManifest → Bool
  indexed_manifest m =
      content_digest m.digest && (if_present is_safe_count m.size && oci_platform m.platform)

  unfoldable pub oci_index_fields : OciIndex → Bool
  oci_index_fields r =
      oci_reference r.reference
      && (content_digest r.digest
          && (if_present is_safe_count r.size
              && (size_in 1 512 r.manifests && all indexed_manifest r.manifests)))
