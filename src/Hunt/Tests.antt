-- ===== src/Hunt/Tests.antt =====
-- A hunt at concrete inputs.
use verglos_cli.Prelude.{
  In, inl, inr, sym, ◌∙◌, ℕ, zero, suc, ◌≡◌, refl, true, false, none, some, List, [], ◌∷◌, ◌++◌,
  ◌==◌, if◌then◌else◌, length,
}
use verglos_cli.Text.{Text, codes, text_eq, starts_with}
use verglos_cli.Text.Sets.{repeats}
use verglos_cli.Samples.{hex64, some_digest, some_subject, formats}
use verglos_cli.Schema.Canonical.{canonicalize_json}
use verglos_cli.Approval.{
  execute, action_eq, Platform, approved, receipt_json, request_json, is_request_shape,
  request_issues, receipt_issues, approval_request_digest, is_approval_usable,
}
use verglos_cli.Hunt.{
  HuntVerdict, confirmed, not_reproduced, inconclusive, environment_error, not_supported,
  HuntFixture, HuntRecipe, container, always, denied, redaction_required, verified, hunt_rule_id,
  hunt_limits, recipe_fields, recipe_issues,
}
use verglos_cli.Hunt.Trust.{
  Feed, FeedEntry, TrustStore, TrustTools, trusted, untrusted, recipe_revoked, feed_not_current,
  trust_key, feed_signature, license_evidence, feed_document, trust_policy, verify_hunt_recipe,
}
use verglos_cli.Hunt.Trust.Laws.{TimesRead}
use verglos_cli.Hunt.Gate.{HuntRequest, can_execute_hunt}
use verglos_cli.Hunt.Gate.Complete.{IsClearStore, can_execute_hunt_if}
use verglos_cli.Hunt.Gate.Laws.{MayExecute, can_execute_hunt-MayExecute}

-- To unfold the checks of hunts.
unfoldable hunts : Unit {0}
unfolding formats repeats canonicalize_json action_eq receipt_json request_json is_request_shape
    request_issues receipt_issues approval_request_digest is_approval_usable hunt_rule_id
    hunt_limits recipe_fields recipe_issues trust_key feed_signature license_evidence feed_document
    trust_policy verify_hunt_recipe can_execute_hunt
hunts = tt

abbrev fixture : Text → HuntVerdict → HuntFixture
fixture id v = record { fixture_id = id; expected_verdict = v }

abbrev some_recipe : HuntRecipe
some_recipe = record {
  recipe_id = codes "recipe-one";
  rule_id = codes "D1-001";
  target_subject_id = some_subject;
  image_digest = some_digest;
  command = codes "run" ∷ [];
  assertions = codes "seen" ∷ [];
  fixtures = record {
    positive = fixture (codes "a") confirmed;
    negative = fixture (codes "b") not_reproduced;
    timeout = fixture (codes "c") inconclusive;
    infrastructure_failure = fixture (codes "d") environment_error;
    unsupported = fixture (codes "e") not_supported;
  };
  inputs = [];
  isolation = container;
  limits = record {
    timeout_ms = 1000;
    cpu_ms = 500;
    memory_mb = 64;
    disk_mb = 64;
    output_bytes = 1024;
    processes = 4;
    max_network_requests = 0;
  };
  cleanup = always;
  network_mode = denied;
  destinations = [];
  network_reason = codes "none";
  redaction = redaction_required;
  signature_status = verified;
  signer = some (codes "key-one");
  signature_expires_at = none;
}

abbrev repeated : ℕ → ℕ → Text
repeated zero c = []
repeated (suc n) c = c ∷ repeated n c

abbrev some_entry : FeedEntry
some_entry = record {
  recipe = some_recipe;
  recipe_digest = codes "sha256:" ++ hex64;
  license = record {
    license_id = codes "MIT";
    source = codes "https://feeds.example";
    text_digest = some_digest;
    license_text = codes "text";
  };
}

abbrev some_feed : List Text → Feed
some_feed revoked = record {
  feed_id = codes "feed-one";
  origin = codes "https://feeds.example";
  issued_at = some 10;
  expires_at = some 90;
  entries = some_entry ∷ [];
  revoked_recipe_ids = revoked;
  key_id = codes "key-one";
  signature_value = repeated 86 b'A' ++ codes "==";
}

abbrev some_store : List Text → TrustStore
some_store revoked = record {
  feeds =
      record {
        feed_id = codes "feed-one";
        origin = codes "https://feeds.example";
        keys =
            record {
              key_id = codes "key-one";
              public_key_pem = hex64;
              not_before = some (some 5);
              expires_at = none;
            }
            ∷ [];
      }
      ∷ [];
  signed_feeds = some_feed revoked ∷ [];
}

abbrev some_tools : TrustTools
some_tools = record {
  parse_url = λ s.
      if starts_with (codes "https://") s
      then some (record {
        protocol = codes "https:";
        username = [];
        password = [];
        pathname = codes "/";
        search = [];
        hash = [];
      })
      else none;
  recipe_digest = λ r. some (codes "sha256:" ++ hex64);
  feed_digest = λ f. some hex64;
  sha256_hex = λ s. hex64;
  verify_feed = λ f key. true;
}

abbrev some_platform : Platform
some_platform = record {
  is_uuid = λ s. length s == 36;
  is_url = starts_with (codes "https://");
  is_datetime = λ s. length s == 2;
  parse_date = λ s.
      if text_eq s (codes "20")
      then some 20
      else if text_eq s (codes "30")
      then some 30
      else some 40;
  sha256_hex = λ s. hex64;
}

abbrev some_request : HuntRequest
some_request = record {
  rule_id = codes "D1-001";
  subject_id = some_subject;
  at = codes "30";
  approval = record {
    request = record {
      request_id = codes "01234567-89ab-4def-8123-456789abcdef";
      action = execute;
      actor = codes "agent";
      target = some_subject;
      files = [];
      network = [];
      policy_effect = codes "hunt";
      requested_at = codes "20";
      expires_at = codes "40";
    };
    decision = approved;
    decided_by = codes "human";
    decided_at = codes "20";
    request_digest = codes "sha256:" ++ hex64;
  };
}

refusals :
    (verify_hunt_recipe some_tools some_recipe (some_store (codes "recipe-one" ∷ [])) (some 30)
      ≡ untrusted recipe_revoked)
    × (verify_hunt_recipe some_tools some_recipe (some_store []) (some 90)
        ≡ untrusted feed_not_current)
    × (hunt_rule_id (codes "AGENT-") ≡ false)
unfolding hunts
refusals = (refl, refl, refl)

store_times : TimesRead (some_store [])
store_times = record { feeds = ((refl, refl), tt); keys = (((refl, tt), tt), tt) }

-- A store whose feed has an expiry that `Date.parse` cannot read.
abbrev unread_store : TrustStore
unread_store = record (some_store []) {
  signed_feeds = record (some_feed []) { expires_at = none } ∷ [];
}

-- Such a feed is never out of date.
unread_test :
    verify_hunt_recipe some_tools some_recipe unread_store (some 90)
    ≡ trusted (record (some_feed []) { expires_at = none }) some_entry some_entry.recipe_digest
unfolding hunts
unread_test = refl

can_execute_hunt-MayExecute_example :
    MayExecute some_platform some_tools some_recipe some_request (some_store [])
unfolding hunts
can_execute_hunt-MayExecute_example =
    can_execute_hunt-MayExecute some_platform some_tools some_recipe some_request (some_store [])
      store_times refl

one_feed_store : IsClearStore some_platform some_tools some_recipe some_request (some_store [])
unfolding hunts
one_feed_store = record {
  policy = refl;
  digests = λ f m. refl;
  one_feed = λ f g m n j k. only f g m n;
}
  where
    only : (f g : Feed) → In f (some_feed [] ∷ []) → In g (some_feed [] ∷ []) → g ≡ f
    only f g (inl d) (inl e) = e ∙ sym d
    only f g (inl d) (inr x) = absurd x
    only f g (inr x) m = absurd x

can_execute_hunt_if_example :
    can_execute_hunt some_platform some_tools some_recipe some_request (some_store []) ≡ true
unfolding hunts
can_execute_hunt_if_example =
    can_execute_hunt_if some_platform some_tools some_recipe some_request (some_store [])
      one_feed_store
      (can_execute_hunt-MayExecute some_platform some_tools some_recipe some_request (some_store [])
        store_times refl)
