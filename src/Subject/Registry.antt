-- ===== src/Subject/Registry.antt =====
-- packages/shared/src/subject.ts: `isRegistry`, where `isIP` of Node.js is a parameter. A capital
-- letter outside ASCII, which `toLowerCase` would change too, is refused by each form of a host.
use verglos_cli.Prelude.{
  ℕ, ◌+◌, ◌-◌, ◌*◌, ◌≡◌, refl, Bool, true, false, not, ◌&&◌, ◌||◌, Option, none, some, [], ◌∷◌, leb,
  ◌==◌, if◌then◌else◌, length, all,
}
use verglos_cli.Text.{Text, codes, text_eq}
use verglos_cli.Formats.{in_range, is_digit, is_alnum}
use verglos_cli.Contracts.{is_empty}
use verglos_cli.Schema.Version.{split_on}
use verglos_cli.ReleaseRollback.{is_space}
use verglos_cli.Subject.Path.{no_controls}

-- `isDnsLabel`
abbrev last_unit_ok : Text → Bool
last_unit_ok [] = false
last_unit_ok (c ∷ []) = is_alnum c
last_unit_ok (c ∷ d ∷ s) = last_unit_ok (d ∷ s)

abbrev first_unit_ok : Text → Bool
first_unit_ok [] = false
first_unit_ok (c ∷ s) = is_alnum c

unfoldable pub is_dns_label : Text → Bool
is_dns_label s =
    leb 1 (length s)
    && (leb (length s) 63
        && (first_unit_ok s && (all (λ c. is_alnum c || c == b'-') s && last_unit_ok s)))

-- The text before a unit and the text behind it, at its first place and at its last.
abbrev pub cut_first : ℕ → Text → Option (Text × Text)
cut_first c [] = none
cut_first c (d ∷ s) =
    let rest = cut_first c s in
    if d == c then some ([], s) else elim rest [ none ↦ none | some (a, b) ↦ some (d ∷ a, b) ]

abbrev pub cut_last : ℕ → Text → Option (Text × Text)
cut_last c [] = none
cut_last c (d ∷ s) = elim (cut_last c s) [
  | some (a, b) ↦ some (d ∷ a, b)
  | none ↦ if d == c then some ([], s) else none
]

abbrev decimal_from : ℕ → Text → ℕ
decimal_from n [] = n
decimal_from n (c ∷ s) = decimal_from (10 * n + (c - b'0')) s

-- The test of a port.
unfoldable pub is_port : Text → Bool
is_port s =
    leb 1 (length s)
    && (leb (length s) 5
        && (all is_digit s && (leb 1 (decimal_from 0 s) && leb (decimal_from 0 s) 65535)))

abbrev port_ok : Option Text → Bool
port_ok none = true
port_ok (some s) = is_port s

-- What stands behind the bracket: nothing, or a colon and digits.
abbrev behind_bracket : Text → Option (Option Text)
behind_bracket [] = some none
behind_bracket (c ∷ s) =
    if c == b':' && (not (is_empty s) && all is_digit s) then some (some s) else none

module _ (is_ip : Text → ℕ) where
  abbrev bracketed_host : Option (Text × Text) → Bool
  bracketed_host none = false
  bracketed_host (some (host, rest)) =
      not (is_empty host)
      && elim (behind_bracket rest) [ none ↦ false | some port ↦ is_ip host == 6 && port_ok port ]

  abbrev named_host : Text → Option Text → Bool
  named_host host port =
      (text_eq host (codes "localhost")
        || (is_ip host == 4 || all is_dns_label (split_on b'.' host)))
      && (port_ok port && not (is_empty host))

  abbrev plain_host : Text → Option (Text × Text) → Bool
  plain_host value none = named_host value none
  plain_host value (some (host, port)) = named_host host (some port)

  abbrev host_ok : Text → Bool
  host_ok [] = plain_host [] none
  host_ok (c ∷ s) =
      if c == b'['
      then bracketed_host (cut_first b']' s)
      else plain_host (c ∷ s) (cut_last b':' (c ∷ s))

  -- `isRegistry`
  unfoldable pub is_registry : Text → Bool
  unfolding is_dns_label is_port
  is_registry value =
      all (λ c. not (in_range b'A' b'Z' c || (is_space c || (c == b'/' || c == b'@')))) value
      && (no_controls value && host_ok value)

is_registry_tests :
    (is_registry (λ s. 0) (codes "ghcr.io:443") ≡ true)
    × (is_registry (λ s. 0) (codes "localhost") ≡ true)
    × (is_registry (λ s. 6) (codes "[::1]:5000") ≡ true)
    × (is_registry (λ s. 0) (codes "ghcr.io:0") ≡ false)
    × (is_registry (λ s. 0) (codes "-a.io") ≡ false)
unfolding is_registry
is_registry_tests = (refl, refl, refl, refl, refl)
