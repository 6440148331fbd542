-- ===== src/Subject.antt =====
-- packages/shared/src/subject.ts: what an inspection is about, in seven kinds.
pub mod Path
pub mod Fields
pub mod Registry
pub mod Refine
pub mod Identity
pub mod Laws
mod Tests
use verglos_cli.Prelude.{ℕ, Bool, Option, List}
use verglos_cli.Text.{Text, codes}
use verglos_cli.Formats.{ContentDigest}

pub data GitAlgorithm : Type 0 where
  git_sha1 git_sha256 : GitAlgorithm

-- GitObjectIdSchema
pub record GitObjectId : Type 0 where
  pub algorithm : GitAlgorithm
  pub value : Text

-- OciPlatformSchema
pub record OciPlatform : Type 0 where
  pub os : Text
  pub architecture : Text
  pub variant : Option Text
  pub os_version : Option Text
  pub os_features : Option (List Text)

pub data SubmoduleState : Type 0 where
  no_submodules resolved incomplete : SubmoduleState

-- repositoryTreeFields; the literals `kind` and `vcs` are left out, here and below.
pub record RepositoryTree : Type 0 where
  pub commit : GitObjectId
  pub tree : GitObjectId
  pub dirty : Bool
  pub worktree_digest : Option ContentDigest
  pub submodule_state : SubmoduleState
  pub shallow : Bool

-- packageFields
pub record Package : Type 0 where
  pub ecosystem : Text
  pub name : Text
  pub version : Text
  pub digest : ContentDigest
  pub purl : Option Text

-- filesystemFields
pub record Filesystem : Type 0 where
  pub tree_digest : ContentDigest
  pub ignore_policy_digest : ContentDigest
  pub entry_count : ℕ
  pub scope_path : Option Text

pub data SbomFormat : Type 0 where
  cyclonedx_json cyclonedx_xml spdx_json spdx_tag_value : SbomFormat

-- sbomFields
pub record Sbom : Type 0 where
  pub format : SbomFormat
  pub document_digest : ContentDigest
  pub serial_number : Option Text

-- artifactFields
pub record Artifact : Type 0 where
  pub digest : ContentDigest
  pub size : ℕ
  pub media_type : Text
  pub path : Option Text

-- ociReferenceFields
pub record OciReference : Type 0 where
  pub registry : Text
  pub repository : Text
  pub tag : Option Text

-- ociManifestFields; the fields of the reference, which the source spreads, are one field.
pub record OciManifest : Type 0 where
  pub reference : OciReference
  pub digest : ContentDigest
  pub size : Option ℕ
  pub platform : OciPlatform

-- An item of `manifests`.
pub record IndexedManifest : Type 0 where
  pub digest : ContentDigest
  pub size : Option ℕ
  pub platform : OciPlatform

-- ociIndexFields
pub record OciIndex : Type 0 where
  pub reference : OciReference
  pub digest : ContentDigest
  pub size : Option ℕ
  pub manifests : List IndexedManifest

-- SubjectPayloadUnionSchema
pub data SubjectPayload : Type 0 where
  repository_tree : RepositoryTree → SubjectPayload
  package_payload : Package → SubjectPayload
  filesystem : Filesystem → SubjectPayload
  sbom : Sbom → SubjectPayload
  artifact : Artifact → SubjectPayload
  oci_manifest : OciManifest → SubjectPayload
  oci_index : OciIndex → SubjectPayload

-- `payload.kind`
abbrev pub kind_text : SubjectPayload → Text
kind_text (repository_tree r) = codes "repository-tree"
kind_text (package_payload r) = codes "package"
kind_text (filesystem r) = codes "filesystem"
kind_text (sbom r) = codes "sbom"
kind_text (artifact r) = codes "artifact"
kind_text (oci_manifest r) = codes "oci-manifest"
kind_text (oci_index r) = codes "oci-index"

-- SubjectDocumentSchema: the common fields, and those of the kind. `schemaId` is a literal.
pub record Subject : Type 0 where
  pub schema_version : Text
  pub subject_id : Text
  pub payload : SubjectPayload
