-- ===== src/Policy.antt =====
-- internal/policy: the configuration, its durations, its validation and the matching of rules.
-- The data types of config.go stand here; the modules below hold the operations.
pub mod Duration
pub mod Validate
pub mod Reader
pub mod Matcher
use ribat.Base.{ℕ, ℤ, Bool, true, false, List, [], Option, none, some, Text, codes, pos}

abbrev pub action_allow : Text
action_allow = codes "allow"

abbrev pub action_deny : Text
action_deny = codes "deny"

abbrev pub action_quarantine : Text
action_quarantine = codes "quarantine"

-- A `Duration` is a number of nanoseconds.
pub record MutableTagPolicy : Type 0 where
  pub action : Text
  pub min_digest_age : ℤ
  pub allow_first_seen_pull : Bool

pub record ActionPolicy : Type 0 where
  pub action : Text

pub record CosignPolicy : Type 0 where
  pub required : Bool
  pub mode : Text
  pub key : Text
  pub issuer : Text
  pub identity : Text
  pub identity_regex : Text

pub record SignaturesPolicy : Type 0 where
  pub cosign : CosignPolicy

pub record EffectivePolicy : Type 0 where
  pub mutable_tags : MutableTagPolicy
  pub digest_pinned_images : ActionPolicy
  pub failed_registry_resolution : ActionPolicy
  pub failed_signature_check : ActionPolicy
  pub signatures : SignaturesPolicy

-- In a rule every field may be absent: the pointers of the source.
pub record RuleMutableTagPolicy : Type 0 where
  pub action : Option Text
  pub min_digest_age : Option ℤ
  pub allow_first_seen_pull : Option Bool

pub record RuleCosignPolicy : Type 0 where
  pub required : Option Bool
  pub mode : Option Text
  pub key : Option Text
  pub issuer : Option Text
  pub identity : Option Text
  pub identity_regex : Option Text

pub record RuleSignaturesPolicy : Type 0 where
  pub cosign : RuleCosignPolicy

pub record Rule : Type 0 where
  pub match : Text
  pub mutable_tags : RuleMutableTagPolicy
  pub signatures : RuleSignaturesPolicy

pub record AuditConfig : Type 0 where
  pub path : Text

pub record StateConfig : Type 0 where
  pub backend : Text
  pub path : Text

pub record Config : Type 0 where
  pub version : ℤ
  pub default_policy : EffectivePolicy
  pub rules : List Rule
  pub audit : AuditConfig
  pub state : StateConfig

-- The zero values that Go gives fields that no line of a file sets.
abbrev pub zero_rule : Rule
zero_rule = record {
  match = [];
  mutable_tags = record { action = none; min_digest_age = none; allow_first_seen_pull = none };
  signatures = record {
    cosign = record {
      required = none;
      mode = none;
      key = none;
      issuer = none;
      identity = none;
      identity_regex = none;
    };
  };
}

abbrev pub zero_config : Config
zero_config = record {
  version = pos 0;
  default_policy = record {
    mutable_tags = record { action = []; min_digest_age = pos 0; allow_first_seen_pull = false };
    digest_pinned_images = record { action = [] };
    failed_registry_resolution = record { action = [] };
    failed_signature_check = record { action = [] };
    signatures = record {
      cosign = record {
        required = false;
        mode = [];
        key = [];
        issuer = [];
        identity = [];
        identity_regex = [];
      };
    };
  };
  rules = [];
  audit = record { path = [] };
  state = record { backend = []; path = [] };
}
