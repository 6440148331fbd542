-- ===== src/Subject/Path.antt =====
-- packages/shared/src/subject.ts: RelativeSubjectPathSchema.
pub mod Laws
use verglos_cli.Prelude.{ℕ, Bool, false, not, ◌&&◌, ◌||◌, [], ◌∷◌, leb, ◌==◌, any, all}
use verglos_cli.Text.{Text, codes, text_eq}
use verglos_cli.Formats.{in_range, length_in, is_lower}
use verglos_cli.Schema.Version.{split_on}
use verglos_cli.Schema.Canonical.{byte_length, valid_unicode}

-- CONTROL_CHARACTERS
abbrev pub is_control : ℕ → Bool
is_control c = leb c 0x1f || c == 0x7f

-- `noControls`
abbrev pub no_controls : Text → Bool
no_controls s = all (λ c. not (is_control c)) s

abbrev pub is_letter : ℕ → Bool
is_letter c = is_lower c || in_range b'A' b'Z' c

-- `/^[A-Za-z]:/`
abbrev pub has_drive_prefix : Text → Bool
has_drive_prefix (c ∷ d ∷ s) = is_letter c && d == b':'
has_drive_prefix _ = false

abbrev pub starts_with_slash : Text → Bool
starts_with_slash [] = false
starts_with_slash (c ∷ s) = c == b'/'

abbrev pub is_plain_segment : Text → Bool
is_plain_segment s =
    not (text_eq s []) && (not (text_eq s (codes ".")) && not (text_eq s (codes "..")))

-- RelativeSubjectPathSchema
unfoldable pub relative_subject_path : Text → Bool
relative_subject_path path =
    length_in 1 4096 path
    && (leb (byte_length path) 4096
        && (valid_unicode path
            && (no_controls path
                && (not (any (λ c. c == b'\\') path)
                    && (not (starts_with_slash path)
                        && (not (has_drive_prefix path)
                            && (all is_plain_segment (split_on b'/' path)
                                && all (λ s. leb (byte_length s) 255) (split_on b'/' path))))))))
