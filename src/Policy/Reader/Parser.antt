-- ===== src/Policy/Reader/Parser.antt =====
-- `yamlPolicyParser`: the lines of a policy file, one after the other, and `Load`.
pub mod Indexes
pub mod Sections
use ribat.Base.{
  ℕ, zero, suc, ◌+◌, ◌-◌, ℤ, Bool, true, false, not, ◌&&◌, List, [], ◌∷◌, ◌++◌, ◌==◌, if◌then◌else◌,
  leb, ltb, length, keep, drop, Option, none, some, Text, codes, text_eq, is_empty, has_prefix,
  trim_space, Result, ok, err, ◌>>=◌, ◌>>◌,
}
use ribat.Policy.{
  Config, zero_config, Rule, zero_rule, MutableTagPolicy, CosignPolicy, RuleMutableTagPolicy,
  RuleCosignPolicy,
}
use ribat.Policy.Duration.{atoi}
use ribat.Policy.Validate.{ConfigError, validate}
use ribat.Policy.Reader.{
  LoadError, strip_comment, leading_spaces, parse_scalar, split_yaml_key_value,
}
use ribat.Policy.Reader.Values.{
  set_mutable_tag_value, set_rule_mutable_tag_value, set_cosign_value, set_rule_cosign_value,
}

-- `paths` gives the key that stands at each indentation; `current_rule` is none for -1.
pub record Parser : Type 0 where
  pub config : Config
  pub paths : List (ℕ × Text)
  pub current_rule : Option ℕ

-- The map `paths`, with the empty text for an indentation that is missing.
unfoldable pub path_at : ℕ → List (ℕ × Text) → Text
path_at indent [] = []
path_at indent ((i, key) ∷ paths) =
    let later = path_at indent paths in if i == indent then key else later

-- `paths[indent-n]`; no key stands at a negative indentation.
unfoldable pub path_above : ℕ → ℕ → List (ℕ × Text) → Text
unfolding path_at
path_above n indent paths = if leb n indent then path_at (indent - n) paths else []

unfoldable pub clear_deeper : ℕ → List (ℕ × Text) → List (ℕ × Text)
clear_deeper indent = keep (λ p. ltb p.0 indent)

abbrev pub map_ok {ℓ} :
    {A : Type 0} {B : Type ℓ} → (A → B) → Result LoadError A → Result LoadError B
map_ok f (ok a) = ok (f a)
map_ok f (err e) = err e

-- `rule := &p.config.Rules[i]`, and what is done to the rule.
unfoldable pub update_rule :
    (Rule → Result LoadError Rule) → ℕ → List Rule → Result LoadError (List Rule)
update_rule f i [] = err LoadError.index_panic
update_rule f zero (r ∷ rules) = map_ok (λ s. s ∷ rules) (f r)
update_rule f (suc i) (r ∷ rules) = map_ok (λ l. r ∷ l) (update_rule f i rules)

module _ (std_parse : Text → Option ℤ) (n : ℕ) where
  unfoldable pub set_in_rule : List (ℕ × Text) → ℕ → Text → Text → Rule → Result LoadError Rule
  unfolding path_above
  set_in_rule paths indent key value rule =
      if text_eq key (codes "match")
      then ok (record rule { match = value })
      else if text_eq (path_above 2 indent paths) (codes "mutable_tags")
      then map_ok (λ t. record rule { mutable_tags = t })
          (set_rule_mutable_tag_value std_parse n key value rule.mutable_tags)
      else if text_eq (path_above 4 indent paths) (codes "signatures")
          && text_eq (path_above 2 indent paths) (codes "cosign")
      then map_ok (λ t. record rule { signatures = record { cosign = t } })
          (set_rule_cosign_value n key value rule.signatures.cosign)
      else ok rule

  unfoldable pub set_rule_value : ℕ → ℕ → Text → Text → Parser → Result LoadError Parser
  unfolding set_in_rule update_rule
  set_rule_value i indent key value p =
      map_ok (λ rules. record p { config = record p.config { rules = rules } })
        (update_rule (set_in_rule p.paths indent key value) i p.config.rules)

  set_version : Option ℤ → Config → Result LoadError Config
  set_version none c = err (LoadError.bad_version_number n)
  set_version (some v) c = ok (record c { version = v })

  -- The `switch` of `setValue`.
  unfoldable pub set_in_config :
      List (ℕ × Text) → ℕ → Text → Text → Config → Result LoadError Config
  unfolding set_version path_at
  set_in_config paths indent key value c =
      let top = path_at 0 paths in
      let second = path_at 2 paths in
      let defaults = c.default_policy in
      if indent == 0 && text_eq key (codes "version")
      then set_version (atoi value) c
      else if text_eq top (codes "default_policy") && text_eq second (codes "mutable_tags")
      then map_ok (λ t. record c { default_policy = record defaults { mutable_tags = t } })
          (set_mutable_tag_value std_parse n key value defaults.mutable_tags)
      else if text_eq top (codes "default_policy")
          && (text_eq second (codes "digest_pinned_images") && text_eq key (codes "action"))
      then ok (record c {
        default_policy = record defaults { digest_pinned_images = record { action = value } };
      })
      else if text_eq top (codes "default_policy")
          && (text_eq second (codes "failed_registry_resolution") && text_eq key (codes "action"))
      then ok (record c {
        default_policy = record defaults { failed_registry_resolution = record { action = value } };
      })
      else if text_eq top (codes "default_policy")
          && (text_eq second (codes "failed_signature_check") && text_eq key (codes "action"))
      then ok (record c {
        default_policy = record defaults { failed_signature_check = record { action = value } };
      })
      else if text_eq top (codes "default_policy")
          && (text_eq second (codes "signatures") && text_eq (path_at 4 paths) (codes "cosign"))
      then map_ok
          (λ t. record c {
            default_policy = record defaults { signatures = record { cosign = t } };
          })
          (set_cosign_value n key value defaults.signatures.cosign)
      else if text_eq top (codes "audit") && text_eq key (codes "path")
      then ok (record c { audit = record { path = value } })
      else if text_eq top (codes "state") && text_eq key (codes "backend")
      then ok (record c { state = record c.state { backend = value } })
      else if text_eq top (codes "state") && text_eq key (codes "path")
      then ok (record c { state = record c.state { path = value } })
      else ok c

  in_config : ℕ → Text → Text → Parser → Result LoadError Parser
  unfolding set_in_config
  in_config indent key value p =
      map_ok (λ c. record p { config = c }) (set_in_config p.paths indent key value p.config)

  by_rule : Option ℕ → ℕ → Text → Text → Parser → Result LoadError Parser
  unfolding set_rule_value in_config
  by_rule none indent key value p = in_config indent key value p
  by_rule (some i) indent key value p =
      if ltb 2 indent then set_rule_value i indent key value p else in_config indent key value p

  unfoldable pub set_value : ℕ → Text → Text → Parser → Result LoadError Parser
  unfolding by_rule
  set_value indent key value p = by_rule p.current_rule indent key value p

  -- A new rule behind the others.
  abbrev pub with_rule : Parser → Parser
  with_rule p = record p {
    config = record p.config { rules = p.config.rules ++ zero_rule ∷ [] };
    current_rule = some (length p.config.rules);
  }

  first_value : ℕ → Parser → Result LoadError (Text × Text) → Result LoadError Parser
  first_value indent p (err e) = err e
  first_value indent p (ok (key, value)) =
      set_rule_value (length p.config.rules) (indent + 2) key (parse_scalar value) (with_rule p)

  unfoldable pub parse_list_item : ℕ → Text → Parser → Result LoadError Parser
  unfolding first_value path_above
  parse_list_item indent item p =
      if not (text_eq (path_above 2 indent p.paths) (codes "rules"))
      then ok p
      else if is_empty item
      then ok (with_rule p)
      else first_value indent p (split_yaml_key_value n item)

  -- A line that is no item of a list, once it has been split.
  unfoldable pub parse_pair : ℕ → Parser → Text × Text → Result LoadError Parser
  unfolding clear_deeper set_value
  parse_pair indent p (key, value) =
      let above = clear_deeper indent p.paths in
      if is_empty value
      then ok (record p { paths = (indent, key) ∷ above })
      else set_value indent key (parse_scalar value)
          (record p { paths = above; current_rule = if indent == 0 then none else p.current_rule })

  unfoldable pub parse_line : Text → Parser → Result LoadError Parser
  unfolding parse_list_item parse_pair
  parse_line line p =
      let raw = strip_comment line in
      let trimmed = trim_space raw in
      let indent = leading_spaces raw in
      if is_empty trimmed
      then ok p
      else if has_prefix trimmed (codes "- ")
      then parse_list_item indent (trim_space (drop 2 trimmed)) p
      else split_yaml_key_value n trimmed >>= parse_pair indent p

abbrev pub new_parser : Parser
new_parser = record { config = zero_config; paths = []; current_rule = none }

module _ (std_parse : Text → Option ℤ) where
  unfoldable pub parse_lines : ℕ → List Text → Parser → Result LoadError Parser
  unfolding parse_line
  parse_lines n [] p = ok p
  parse_lines n (line ∷ lines) p = parse_line std_parse n line p >>= parse_lines (suc n) lines

  unfoldable pub validated : Config → Result ConfigError (Unit {0}) → Result LoadError Config
  validated c (ok x) = ok c
  validated c (err e) = err (LoadError.invalid e)

  unfoldable pub checked : Option Text → Parser → Result LoadError Config
  unfolding validated
  checked (some m) p = err (LoadError.read_failed m)
  checked none p = validated p.config (validate p.config)

  -- `Load`, on the lines that the scanner finds and the error that it stops with, if any.
  unfoldable pub load : List Text → Option Text → Result LoadError Config
  unfolding parse_lines checked
  load lines broken = parse_lines 1 lines new_parser >>= checked broken
