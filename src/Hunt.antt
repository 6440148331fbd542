-- ===== src/Hunt.antt =====
-- packages/shared/src/hunt-recipe.ts: recipes that try to confirm a finding. `new URL` is a parameter.
pub mod Verdict
pub mod Trust
pub mod Gate
mod Tests
use verglos_cli.Prelude.{
  ℕ, Bool, true, false, not, ◌&&◌, ◌||◌, Option, none, some, List, [], ◌∷◌, map, ltb, leb, ◌==◌,
  length, any, all,
}
use verglos_cli.Text.{Text, codes, text_eq, starts_with}
use verglos_cli.Text.Sets.{repeats}
use verglos_cli.Formats.{
  ContentDigest, sha256, algorithm_eq, length_in, stable_id, subject_id, content_digest,
}
use verglos_cli.Contracts.{
  Time, raise, Parsed, accept_if_clean, is_some, is_empty, truthy, if_present, size_in,
}
use verglos_cli.Subject.Path.{no_controls, is_letter}
use verglos_cli.Subject.Fields.{is_letter_or_digit}

-- HUNT_VERDICTS
pub data HuntVerdict : Type 0 where
  confirmed not_reproduced inconclusive not_supported environment_error policy_denied : HuntVerdict

-- What `new URL` reads.
pub record Url : Type 0 where
  pub protocol : Text
  pub username : Text
  pub password : Text
  pub pathname : Text
  pub search : Text
  pub hash : Text

-- HuntResourceLimitsSchema
pub record HuntLimits : Type 0 where
  pub timeout_ms : ℕ
  pub cpu_ms : ℕ
  pub memory_mb : ℕ
  pub disk_mb : ℕ
  pub output_bytes : ℕ
  pub processes : ℕ
  pub max_network_requests : ℕ

-- HuntFixtureRefSchema
pub record HuntFixture : Type 0 where
  pub fixture_id : Text
  pub expected_verdict : HuntVerdict

-- HuntFixtureContractSchema
pub record HuntFixtures : Type 0 where
  pub positive : HuntFixture
  pub negative : HuntFixture
  pub timeout : HuntFixture
  pub infrastructure_failure : HuntFixture
  pub unsupported : HuntFixture

pub data Isolation : Type 0 where
  no_isolation restricted_process container gvisor microvm : Isolation

pub data Cleanup : Type 0 where
  always on_success no_cleanup : Cleanup

pub data NetworkMode : Type 0 where
  denied allowlist : NetworkMode

pub data Redaction : Type 0 where
  redaction_required best_effort : Redaction

pub data SignatureStatus : Type 0 where
  verified unverified invalid_signature_status : SignatureStatus

-- HuntRecipeSchema; the fields of `network` and `signature` are fields of the recipe, and `inputs` is
-- empty where it is absent.
pub record HuntRecipe : Type 0 where
  pub recipe_id : Text
  pub rule_id : Text
  pub target_subject_id : Text
  pub image_digest : ContentDigest
  pub command : List Text
  pub assertions : List Text
  pub fixtures : HuntFixtures
  pub inputs : List (Text × Text)
  pub isolation : Isolation
  pub limits : HuntLimits
  pub cleanup : Cleanup
  pub network_mode : NetworkMode
  pub destinations : List Text
  pub network_reason : Text
  pub redaction : Redaction
  pub signature_status : SignatureStatus
  pub signer : Option Text
  pub signature_expires_at : Option Time

pub data RecipeIssue : Type 0 where
  malformed cpu_over_timeout repeated_fixtures wrong_fixture repeated_destinations : RecipeIssue
  requests_while_denied no_requests_allowed no_destination not_sha256 : RecipeIssue
  destinations_while_denied not_isolated not_https has_credentials not_an_origin : RecipeIssue
  no_signer : RecipeIssue

-- `[A-Za-z0-9]*(?:[._:-][A-Za-z0-9]+)*`, where `due` says that a separator has just been read.
abbrev rule_from : Bool → Text → Bool
rule_from due [] = not due
rule_from due (c ∷ s) =
    (is_letter_or_digit c || (any (◌==◌ c) (codes "._:-") && not due))
    && rule_from (not (is_letter_or_digit c)) s

abbrev starts_with_letter : Text → Bool
starts_with_letter [] = false
starts_with_letter (c ∷ s) = is_letter c

-- HuntRuleIdSchema
unfoldable pub hunt_rule_id : Text → Bool
hunt_rule_id s = length_in 1 128 s && (starts_with_letter s && rule_from false s)

abbrev plain_text : ℕ → ℕ → Text → Bool
plain_text lo hi s = length_in lo hi s && no_controls s

abbrev limit : ℕ → ℕ → Bool
limit max n = leb 1 n && leb n max

unfoldable pub hunt_limits : HuntLimits → Bool
hunt_limits l =
    limit 600000 l.timeout_ms
    && (limit 600000 l.cpu_ms
        && (limit 16384 l.memory_mb
            && (limit 16384 l.disk_mb
                && (limit 10000000 l.output_bytes
                    && (limit 4096 l.processes && leb l.max_network_requests 9007199254740991)))))

abbrev verdict_rank : HuntVerdict → ℕ
verdict_rank confirmed = 0
verdict_rank not_reproduced = 1
verdict_rank inconclusive = 2
verdict_rank not_supported = 3
verdict_rank environment_error = 4
verdict_rank policy_denied = 5

abbrev fixtures_of : HuntFixtures → List (HuntFixture × HuntVerdict)
fixtures_of f =
    (f.positive, confirmed)
    ∷ (f.negative, not_reproduced)
    ∷ (f.timeout, inconclusive)
    ∷ (f.infrastructure_failure, environment_error)
    ∷ (f.unsupported, not_supported)
    ∷ []

abbrev is_wrong_fixture : HuntFixture × HuntVerdict → Bool
is_wrong_fixture f = not (verdict_rank f.0.expected_verdict == verdict_rank f.1)

abbrev pub is_denied : NetworkMode → Bool
is_denied denied = true
is_denied allowlist = false

abbrev is_unisolated : Isolation → Bool
is_unisolated no_isolation = true
is_unisolated _ = false

abbrev pub is_verified : SignatureStatus → Bool
is_verified verified = true
is_verified _ = false

-- A test of a URL that fails where there is none.
abbrev url_has : (Url → Bool) → Option Url → Bool
url_has p none = false
url_has p (some u) = p u

module _ (parse_url : Text → Option Url) where
  unfoldable pub recipe_fields : HuntRecipe → Bool
  recipe_fields r =
      stable_id r.recipe_id
      && (hunt_rule_id r.rule_id
          && (subject_id r.target_subject_id
              && (content_digest r.image_digest
                  && (size_in 1 32 r.command
                      && (all (plain_text 1 4096) r.command
                          && (size_in 1 64 r.assertions
                              && (all (plain_text 1 4096) r.assertions
                                  && (all (λ f. stable_id f.0.fixture_id) (fixtures_of r.fixtures)
                                      && (all (λ i. plain_text 1 128 i.0 && plain_text 0 4096 i.1)
                                            r.inputs
                                          && (hunt_limits r.limits
                                              && (leb (length r.destinations) 32
                                                  && (all
                                                        (λ d.
                                                          is_some (parse_url d)
                                                          && leb (length d) 2048)
                                                        r.destinations
                                                      && (plain_text 1 1024 r.network_reason
                                                          && if_present (length_in 1 512)
                                                            r.signer)))))))))))))

  abbrev pub recipe_rows : HuntRecipe → List (Bool × RecipeIssue)
  recipe_rows r =
      (not (recipe_fields r), malformed)
      ∷ (ltb r.limits.timeout_ms r.limits.cpu_ms, cpu_over_timeout)
      ∷ (repeats (map (λ f. f.0.fixture_id) (fixtures_of r.fixtures)), repeated_fixtures)
      ∷ (any is_wrong_fixture (fixtures_of r.fixtures), wrong_fixture)
      ∷ (repeats r.destinations, repeated_destinations)
      ∷ (
        is_denied r.network_mode && not (r.limits.max_network_requests == 0),
        requests_while_denied,
      )
      ∷ (not (is_denied r.network_mode) && r.limits.max_network_requests == 0, no_requests_allowed)
      ∷ (not (is_denied r.network_mode) && is_empty r.destinations, no_destination)
      ∷ (not (algorithm_eq r.image_digest.algorithm sha256), not_sha256)
      ∷ (is_denied r.network_mode && not (is_empty r.destinations), destinations_while_denied)
      ∷ (not (is_denied r.network_mode) && is_unisolated r.isolation, not_isolated)
      ∷ (
        not (is_denied r.network_mode)
            && any (λ d. not (starts_with (codes "https://") d)) r.destinations,
        not_https,
      )
      ∷ (
        any
            (λ d.
              url_has (λ u. not (is_empty u.username) || not (is_empty u.password)) (parse_url d))
            r.destinations,
        has_credentials,
      )
      ∷ (
        any
            (λ d.
              url_has
                (λ u.
                  not (text_eq u.pathname (codes "/"))
                  || (not (is_empty u.search) || not (is_empty u.hash)))
                (parse_url d))
            r.destinations,
        not_an_origin,
      )
      ∷ (is_verified r.signature_status && not (truthy r.signer), no_signer)
      ∷ []

  -- `parseHuntRecipe`
  unfoldable pub recipe_issues : HuntRecipe → List RecipeIssue
  recipe_issues r = raise (recipe_rows r)

  abbrev pub parse_hunt_recipe : HuntRecipe → Parsed RecipeIssue HuntRecipe
  parse_hunt_recipe r = accept_if_clean (recipe_issues r) r
