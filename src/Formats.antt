-- ===== src/Formats.antt =====
-- The field formats that the contracts of packages/shared/src check by regular expressions and
-- length bounds (engine.ts, subject.ts, schema.ts, policy-evaluation.ts).
use verglos_cli.Prelude.{
  ℕ, zero, suc, ◌≡◌, refl, Bool, true, false, not, ◌&&◌, ◌||◌, List, [], ◌∷◌, ◌++◌, map, leb, ◌==◌,
  length, any, all,
}
use verglos_cli.Text.{Text, codes}

abbrev pub in_range : ℕ → ℕ → ℕ → Bool
in_range lo hi c = leb lo c && leb c hi

abbrev pub is_digit : ℕ → Bool
is_digit = in_range b'0' b'9'

abbrev pub is_lower : ℕ → Bool
is_lower = in_range b'a' b'z'

-- `[0-9a-f]`
abbrev pub is_hex : ℕ → Bool
is_hex c = is_digit c || in_range b'a' b'f' c

-- `[a-z0-9]`
abbrev pub is_alnum : ℕ → Bool
is_alnum c = is_lower c || is_digit c

-- A regular expression of fixed length: one test for each code unit.
abbrev pub fits : List (ℕ → Bool) → Text → Bool
fits [] [] = true
fits [] (c ∷ s) = false
fits (p ∷ ps) [] = false
fits (p ∷ ps) (c ∷ s) = p c && fits ps s

abbrev pub literally : Text → List (ℕ → Bool)
literally = map ◌==◌

abbrev pub times : ℕ → (ℕ → Bool) → List (ℕ → Bool)
times zero p = []
times (suc n) p = p ∷ times n p

-- `[a-z0-9]*(?:sep[a-z0-9]+)*`, where `due` says that a separator has just been read.
abbrev pub labels : (ℕ → Bool) → Bool → Text → Bool
labels sep due [] = not due
labels sep due (c ∷ s) = (is_alnum c || (sep c && not due)) && labels sep (not (is_alnum c)) s

-- `[a-z][a-z0-9]*(?:sep[a-z0-9]+)*`
abbrev pub slug : (ℕ → Bool) → Text → Bool
slug sep [] = false
slug sep (c ∷ s) = is_lower c && labels sep false s

-- `z.string().min(lo).max(hi)`, of a length in code units.
abbrev pub length_in : ℕ → ℕ → Text → Bool
length_in lo hi s = leb lo (length s) && leb (length s) hi

-- StableContractIdSchema
unfoldable pub stable_id : Text → Bool
stable_id s = length_in 1 128 s && slug (λ c. c == b'.' || c == b'-') s

-- UUID_URN
unfoldable pub uuid_urn : Text → Bool
uuid_urn = fits (
    literally (codes "urn:uuid:")
    ++ (times 8 is_hex
        ++ (literally (codes "-")
            ++ (times 4 is_hex
                ++ (literally (codes "-")
                    ++ (in_range b'1' b'8'
                        ∷ (times 3 is_hex
                            ++ (literally (codes "-")
                                ++ ((λ c. c == b'8' || c == b'9' || c == b'a' || c == b'b')
                                    ∷ (times 3 is_hex
                                        ++ (literally (codes "-") ++ times 12 is_hex)))))))))))

-- `sha256:[a-f0-9]{64}`
abbrev pub is_sha256_ref : Text → Bool
is_sha256_ref = fits (literally (codes "sha256:") ++ times 64 is_hex)

-- One code unit outside the controls that SAFE_TEXT excludes.
abbrev pub is_safe_unit : ℕ → Bool
is_safe_unit c =
    not (in_range 0x0 0x8 c || c == 0xb || c == 0xc || in_range 0xe 0x1f c || c == 0x7f)

-- ShortTextSchema
unfoldable pub short_text : Text → Bool
short_text s = length_in 1 512 s && all is_safe_unit s

-- TextSchema
unfoldable pub long_text : Text → Bool
long_text s = length_in 1 4096 s && all is_safe_unit s

pub data Algorithm : Type 0 where
  sha256 sha512 : Algorithm

pub record ContentDigest : Type 0 where
  pub algorithm : Algorithm
  pub value : Text

abbrev pub digest_length : Algorithm → ℕ
digest_length sha256 = 64
digest_length sha512 = 128

-- ContentDigestSchema
unfoldable pub content_digest : ContentDigest → Bool
content_digest d = fits (times (digest_length d.algorithm) is_hex) d.value

abbrev pub algorithm_eq : Algorithm → Algorithm → Bool
algorithm_eq sha256 sha256 = true
algorithm_eq sha512 sha512 = true
algorithm_eq _ _ = false

abbrev pub subject_kinds : List Text
subject_kinds =
    codes "repository-tree"
    ∷ codes "package"
    ∷ codes "filesystem"
    ∷ codes "sbom"
    ∷ codes "artifact"
    ∷ codes "oci-manifest"
    ∷ codes "oci-index"
    ∷ []

-- SubjectIdSchema
unfoldable pub subject_id : Text → Bool
subject_id s =
    leb (length s) 180
    && any
        (λ kind.
          fits
            (literally (codes "urn:verglos:subject:" ++ (kind ++ codes ":sha256:"))
              ++ times 64 is_hex)
            s)
        subject_kinds

stable_id_tests :
    (stable_id (codes "secrets.aws-key") ≡ true)
    × (stable_id (codes "a..b") ≡ false)
    × (stable_id (codes "1a") ≡ false)
    × (stable_id [] ≡ false)
unfolding stable_id
stable_id_tests = (refl, refl, refl, refl)

uuid_urn_tests :
    (uuid_urn (codes "urn:uuid:01234567-89ab-4def-8123-456789abcdef") ≡ true)
    × (uuid_urn (codes "urn:uuid:01234567-89ab-0def-8123-456789abcdef") ≡ false)
unfolding uuid_urn
uuid_urn_tests = (refl, refl)
