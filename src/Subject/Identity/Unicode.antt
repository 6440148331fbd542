-- ===== src/Subject/Identity/Unicode.antt =====
-- The formats of packages/shared/src/subject.ts whose texts are valid Unicode.
use verglos_cli.Prelude.{
  both, ℕ, zero, suc, ◌≡◌, refl, Bool, true, false, ◌||◌, [], ◌∷◌, arith, ltb, ◌==◌, all,
}
use verglos_cli.Text.{Text, codes}
use verglos_cli.Formats.{
  is_lower, is_hex, is_alnum, fits, times, length_in, Algorithm, sha256, sha512,
}
use verglos_cli.Schema.Canonical.{is_high, is_low, valid_unicode}
use verglos_cli.Schema.Canonical.Laws.{IsUnicode, empty, unit, valid_unicode-IsUnicode}
use verglos_cli.Subject.{
  GitAlgorithm, git_sha1, git_sha256, cyclonedx_json, cyclonedx_xml, spdx_json, spdx_tag_value,
  SbomFormat,
}
use verglos_cli.Subject.Path.{no_controls}
use verglos_cli.Subject.Fields.{
  is_letter_or_digit, headed, platform_token, ecosystem_name, bounded_text,
}
use verglos_cli.Subject.Identity.{algorithm_text, git_algorithm_text, format_text}

-- A text of units below the surrogates.
abbrev is_ascii : ℕ → Bool
is_ascii c = ltb c 0x80

ascii_unit : (c : ℕ) → is_ascii c ≡ true → (is_high c ≡ false) × (is_low c ≡ false)
ascii_unit c h = (ground (arith, h), ground (arith, h))

ascii-IsUnicode : (s : Text) → all is_ascii s ≡ true → IsUnicode s
ascii-IsUnicode [] h = empty
ascii-IsUnicode (c ∷ s) h =
    let (high, low) = ascii_unit c (ground (arith, h)) in
    unit high low (ascii-IsUnicode s (ground (arith, h)))

pub literal : (s : Text) → valid_unicode s ≡ true → IsUnicode s
literal s h = valid_unicode-IsUnicode s h

hex_ascii : (c : ℕ) → is_hex c ≡ true → is_ascii c ≡ true
hex_ascii c h = ground (arith, h)

pub hex-IsUnicode : (n : ℕ) (s : Text) → fits (times n is_hex) s ≡ true → IsUnicode s
hex-IsUnicode zero [] h = empty
hex-IsUnicode zero (c ∷ s) h = cc
hex-IsUnicode (suc n) [] h = cc
hex-IsUnicode (suc n) (c ∷ s) h =
    let (high, low) = ascii_unit c (hex_ascii c (ground (arith, h))) in
    unit high low (hex-IsUnicode n s (ground (arith, h)))

pub algorithm-IsUnicode : (a : Algorithm) → IsUnicode (algorithm_text a)
algorithm-IsUnicode sha256 = literal (codes "sha256") refl
algorithm-IsUnicode sha512 = literal (codes "sha512") refl

pub git_algorithm-IsUnicode : (a : GitAlgorithm) → IsUnicode (git_algorithm_text a)
git_algorithm-IsUnicode git_sha1 = literal (codes "sha1") refl
git_algorithm-IsUnicode git_sha256 = literal (codes "sha256") refl

pub format-IsUnicode : (f : SbomFormat) → IsUnicode (format_text f)
format-IsUnicode cyclonedx_json = literal (codes "cyclonedx-json") refl
format-IsUnicode cyclonedx_xml = literal (codes "cyclonedx-xml") refl
format-IsUnicode spdx_json = literal (codes "spdx-json") refl
format-IsUnicode spdx_tag_value = literal (codes "spdx-tag-value") refl

all-all :
    (p q : ℕ → Bool) (s : Text)
    → ((c : ℕ) → p c ≡ true → q c ≡ true)
    → all p s ≡ true
    → all q s ≡ true
all-all p q [] f h = refl
all-all p q (c ∷ s) f h = ground (arith, f c, all-all p q s f, h)

headed-IsUnicode :
    (head rest : ℕ → Bool) (n : ℕ) (s : Text)
    → ((c : ℕ) → head c ≡ true → is_ascii c ≡ true)
    → ((c : ℕ) → rest c ≡ true → is_ascii c ≡ true)
    → headed head rest n s ≡ true
    → IsUnicode s
headed-IsUnicode head rest n [] f g h = cc
headed-IsUnicode head rest n (c ∷ s) f g h =
    let (first, others) = both (head c) _ h in
    let (others, _) = both (all rest s) _ others in
    let (high, low) = ascii_unit c (f c first) in
    unit high low (ascii-IsUnicode s (all-all rest is_ascii s g others))

pub ecosystem-IsUnicode : (s : Text) → ecosystem_name s ≡ true → IsUnicode s
unfolding ecosystem_name
ecosystem-IsUnicode s h =
    headed-IsUnicode is_lower (λ c. is_alnum c || c == b'-') 31 s (λ c k. ground (arith, k))
      (λ c k. ground (arith, k)) h

pub platform_token-IsUnicode : (s : Text) → platform_token s ≡ true → IsUnicode s
unfolding platform_token
platform_token-IsUnicode s h =
    headed-IsUnicode is_letter_or_digit
      (λ c. is_letter_or_digit c || (c == b'.' || (c == b'_' || c == b'-'))) 63 s
      (λ c k. ground (arith, k)) (λ c k. ground (arith, k)) h

pub bounded_text-IsUnicode : (n : ℕ) (s : Text) → bounded_text n s ≡ true → IsUnicode s
unfolding bounded_text
bounded_text-IsUnicode n s h =
    let (_, rest) = both (length_in 1 n s) _ h in
    valid_unicode-IsUnicode s (both (no_controls s) _ rest).1
