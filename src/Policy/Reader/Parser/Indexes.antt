-- ===== src/Policy/Reader/Parser/Indexes.antt =====
-- The index of the current rule stays within the rules, so that reading a file never panics.
use ribat.Base.{
  ℕ, zero, suc, ◌+◌, ◌<◌, ℤ, Bool, true, false, not, ◌&&◌, List, [], ◌∷◌, if◌then◌else◌, ltb,
  length, length-append, Option, none, some, Text, codes, text_eq, is_empty, has_prefix, Result, ok,
  err, ◌≡◌, ◌≢◌, refl, ap, arith, ◌==◌, trim_space, String,
}
use ribat.Policy.{Config, Rule, zero_rule}
use ribat.Policy.Duration.{atoi}
use ribat.Policy.Validate.{ConfigError, validate}
use ribat.Policy.Reader.{LoadError, parse_scalar, key_value, split_yaml_key_value, strip_comment}
use ribat.Policy.Reader.Values.Quiet.{
  Safely, safely, fails, Quiet, Safely-if, Safely-bind, set_mutable_tag_value-Quiet,
  set_rule_mutable_tag_value-Quiet, set_cosign_value-Quiet, set_rule_cosign_value-Quiet,
}
use ribat.Policy.Reader.Parser.{
  Parser, map_ok, path_at, path_above, update_rule, set_in_rule, set_rule_value, set_version,
  set_in_config, in_config, by_rule, set_value, with_rule, first_value, parse_list_item, parse_pair,
  parse_line, new_parser, parse_lines, validated, checked, load,
}

Safely-map :
    {A B : Type 0} (P : A → Type 0) (Q : B → Type 0) (f : A → B) (r : Result LoadError A)
    → ((a : A) → P a → Q (f a))
    → Safely P r
    → Safely Q (map_ok f r)
Safely-map P Q f (ok a) h k = safely Q (f a) (h a k.holds)
Safely-map P Q f (err e) h k = fails Q e k.holds

update_rule-Safely :
    (f : Rule → Result LoadError Rule) (i : ℕ) (rules : List Rule)
    → ((r : Rule) → Quiet (f r))
    → i < length rules
    → Safely (λ l. length l ≡ length rules) (update_rule f i rules)
unfolding update_rule
update_rule-Safely f i [] h small = absurd (omega (arith, small))
update_rule-Safely f zero (r ∷ rules) h small =
    Safely-map (λ s. Unit {0}) _ _ (f r) (λ s x. refl) (h r)
update_rule-Safely f (suc i) (r ∷ rules) h small =
    Safely-map _ _ _ (update_rule f i rules) (λ l e. ap suc e)
      (update_rule-Safely f i rules h (omega (arith, small)))

-- The current rule is one of the rules.
abbrev IsWithin : Option ℕ → List Rule → Type 0
IsWithin none rules = Unit
IsWithin (some i) rules = i < length rules

abbrev IsIndexed : Parser → Type 0
IsIndexed p = IsWithin p.current_rule p.config.rules

IsWithin-same :
    (o : Option ℕ) (l l' : List Rule) → length l' ≡ length l → IsWithin o l → IsWithin o l'
IsWithin-same none l l' e h = tt
IsWithin-same (some i) l l' e h = omega (arith, e, h)

module _ (std_parse : Text → Option ℤ) (n : ℕ) where
  set_in_rule-Quiet :
      (paths : List (ℕ × Text)) (indent : ℕ) (key value : Text) (r : Rule)
      → Quiet (set_in_rule std_parse n paths indent key value r)
  unfolding set_in_rule
  set_in_rule-Quiet paths indent key value r = Safely-if _ _ _ _ (safely _ _ tt) (
      Safely-if _ _ _ _
        (Safely-map (λ t. Unit {0}) _ _ _ (λ t x. tt)
          (set_rule_mutable_tag_value-Quiet n key value std_parse r.mutable_tags))
        (Safely-if _ _ _ _
          (Safely-map (λ t. Unit {0}) _ _ _ (λ t x. tt)
            (set_rule_cosign_value-Quiet n key value r.signatures.cosign))
          (safely _ _ tt)))

  set_rule_value-IsIndexed :
      (i indent : ℕ) (key value : Text) (p : Parser)
      → i < length p.config.rules
      → IsIndexed p
      → Safely IsIndexed (set_rule_value std_parse n i indent key value p)
  unfolding set_rule_value
  set_rule_value-IsIndexed i indent key value p small h =
      Safely-map (λ l. length l ≡ length p.config.rules) _ _ _
        (λ l e. IsWithin-same p.current_rule _ l e h)
        (update_rule-Safely _ i p.config.rules (set_in_rule-Quiet p.paths indent key value) small)

  set_version-rules :
      (v : Option ℤ) (c : Config) → Safely (λ d. d.rules ≡ c.rules) (set_version std_parse n v c)
  unfolding set_version
  set_version-rules none c = fails _ _ (λ h. cc)
  set_version-rules (some v) c = safely _ _ refl

  -- A branch that leaves the rules, and those behind it.
  config_sets :
      (b : Bool) (rules : List Rule) (d : Config) (rest : Result LoadError Config)
      → d.rules ≡ rules
      → Safely (λ x. x.rules ≡ rules) rest
      → Safely (λ x. x.rules ≡ rules) (if b then ok d else rest)
  config_sets b rules d rest e h = Safely-if _ b (ok d) rest (safely _ d e) h

  set_in_config-rules :
      (paths : List (ℕ × Text)) (indent : ℕ) (key value : Text) (c : Config)
      → Safely (λ d. d.rules ≡ c.rules) (set_in_config std_parse n paths indent key value c)
  unfolding set_in_config
  set_in_config-rules paths indent key value c =
      let top : String → Bool = λ name. text_eq (path_at 0 paths) (codes name) in
      let second : String → Bool = λ name. text_eq (path_at 2 paths) (codes name) in
      let is : String → Bool = λ name. text_eq key (codes name) in
      let cosign : Bool = text_eq (path_at 4 paths) (codes "cosign") in
      Safely-if _ (indent == 0 && is "version") _ _ (set_version-rules (atoi value) c) (
        Safely-if _ (top "default_policy" && second "mutable_tags") _ _
          (Safely-map (λ t. Unit {0}) _ _ _ (λ t x. refl)
            (set_mutable_tag_value-Quiet n key value std_parse c.default_policy.mutable_tags))
          (config_sets (top "default_policy" && (second "digest_pinned_images" && is "action")) _ _
            _ refl
            (config_sets
              (top "default_policy" && (second "failed_registry_resolution" && is "action")) _ _ _
              refl
              (config_sets
                (top "default_policy" && (second "failed_signature_check" && is "action")) _ _ _
                refl
                (Safely-if _ (top "default_policy" && (second "signatures" && cosign)) _ _
                  (Safely-map (λ t. Unit {0}) _ _ _ (λ t x. refl)
                    (set_cosign_value-Quiet n key value c.default_policy.signatures.cosign))
                  (config_sets (top "audit" && is "path") _ _ _ refl (
                    config_sets (top "state" && is "backend") _ _ _ refl
                      (config_sets (top "state" && is "path") _ _ _ refl (safely _ c refl)))))))))

  in_config-IsIndexed :
      (indent : ℕ) (key value : Text) (p : Parser)
      → IsIndexed p
      → Safely IsIndexed (in_config std_parse n indent key value p)
  unfolding in_config
  in_config-IsIndexed indent key value p h =
      Safely-map (λ c. c.rules ≡ p.config.rules) _ _ _
        (λ c e. IsWithin-same p.current_rule _ c.rules (ap length e) h)
        (set_in_config-rules p.paths indent key value p.config)

  by_rule-IsIndexed :
      (o : Option ℕ) (indent : ℕ) (key value : Text) (p : Parser)
      → IsWithin o p.config.rules
      → IsIndexed p
      → Safely IsIndexed (by_rule std_parse n o indent key value p)
  unfolding by_rule
  by_rule-IsIndexed none indent key value p small h = in_config-IsIndexed indent key value p h
  by_rule-IsIndexed (some i) indent key value p small h =
      Safely-if _ (ltb 2 indent) _ _ (set_rule_value-IsIndexed i indent key value p small h)
        (in_config-IsIndexed indent key value p h)

  with_rule-IsIndexed :
      (p : Parser) → length p.config.rules < length (with_rule std_parse n p).config.rules
  with_rule-IsIndexed p = omega (arith, length-append p.config.rules (zero_rule ∷ []))

  key_value-Quiet : (o : Option (Text × Text)) → Quiet (key_value n o)
  unfolding key_value
  key_value-Quiet none = fails _ _ (λ h. cc)
  key_value-Quiet (some (before, after)) =
      Safely-if _ (is_empty (trim_space before)) _ _ (fails _ _ (λ h. cc)) (safely _ _ tt)

  split-Quiet : (line : Text) → Quiet (split_yaml_key_value n line)
  unfolding split_yaml_key_value
  split-Quiet line = key_value-Quiet _

  first_value-IsIndexed :
      (indent : ℕ) (p : Parser) (r : Result LoadError (Text × Text))
      → Quiet r
      → Safely IsIndexed (first_value std_parse n indent p r)
  unfolding first_value
  first_value-IsIndexed indent p (err e) h = fails _ e h.holds
  first_value-IsIndexed indent p (ok (key, value)) h =
      set_rule_value-IsIndexed (length p.config.rules) (indent + 2) key (parse_scalar value)
        (with_rule std_parse n p) (with_rule-IsIndexed p) (with_rule-IsIndexed p)

  parse_list_item-IsIndexed :
      (indent : ℕ) (item : Text) (p : Parser)
      → IsIndexed p
      → Safely IsIndexed (parse_list_item std_parse n indent item p)
  unfolding parse_list_item
  parse_list_item-IsIndexed indent item p h =
      Safely-if IsIndexed (not (text_eq (path_above 2 indent p.paths) (codes "rules"))) _ _
        (safely IsIndexed p h)
        (Safely-if IsIndexed (is_empty item) _ _
          (safely IsIndexed (with_rule std_parse n p) (with_rule-IsIndexed p))
          (first_value-IsIndexed indent p (split_yaml_key_value n item) (split-Quiet item)))

  reset-IsWithin :
      (b : Bool) (o : Option ℕ) (l : List Rule) → IsWithin o l → IsWithin (if b then none else o) l
  reset-IsWithin true o l h = tt
  reset-IsWithin false o l h = h

  parse_pair-IsIndexed :
      (indent : ℕ) (p : Parser) (pair : Text × Text)
      → IsIndexed p
      → Safely IsIndexed (parse_pair std_parse n indent p pair)
  unfolding parse_pair set_value
  parse_pair-IsIndexed indent p (key, value) h =
      let kept = reset-IsWithin (indent == 0) p.current_rule p.config.rules h in
      Safely-if IsIndexed _ _ _ (safely IsIndexed _ h)
        (by_rule-IsIndexed _ indent key (parse_scalar value) _ kept kept)

  parse_line-IsIndexed :
      (line : Text) (p : Parser) → IsIndexed p → Safely IsIndexed (parse_line std_parse n line p)
  unfolding parse_line
  parse_line-IsIndexed line p h =
      let trimmed = trim_space (strip_comment line) in
      Safely-if IsIndexed (is_empty trimmed) _ _ (safely IsIndexed p h) (
        Safely-if IsIndexed (has_prefix trimmed (codes "- ")) _ _
          (parse_list_item-IsIndexed _ _ p h)
          (Safely-bind (λ pair. Unit {0}) IsIndexed _ _ (split-Quiet _)
            λ pair x. parse_pair-IsIndexed _ p pair h))

module _ (std_parse : Text → Option ℤ) where
  parse_lines-IsIndexed :
      (n : ℕ) (lines : List Text) (p : Parser)
      → IsIndexed p
      → Safely IsIndexed (parse_lines std_parse n lines p)
  unfolding parse_lines
  parse_lines-IsIndexed n [] p h = safely IsIndexed p h
  parse_lines-IsIndexed n (line ∷ lines) p h =
      Safely-bind IsIndexed IsIndexed (parse_line std_parse n line p) _
        (parse_line-IsIndexed std_parse n line p h) λ q k. parse_lines-IsIndexed (suc n) lines q k

  validated-Quiet :
      (c : Config) (r : Result ConfigError (Unit {0})) → Quiet (validated std_parse c r)
  unfolding validated
  validated-Quiet c (ok x) = safely _ _ tt
  validated-Quiet c (err e) = fails _ _ (λ h. cc)

  checked-Quiet : (broken : Option Text) (p : Parser) → Quiet (checked std_parse broken p)
  unfolding checked
  checked-Quiet (some m) p = fails _ _ (λ h. cc)
  checked-Quiet none p = validated-Quiet p.config (validate p.config)

  not_panic : {A : Type 0} (r : Result LoadError A) → Quiet r → r ≢ err LoadError.index_panic
  not_panic (ok a) h e = cc
  not_panic (err m) h e = let same : m ≡ LoadError.index_panic = cc e in h.holds same

  -- Whatever the lines of the file are and whether the scanner stops with an error, Load does not
  -- index the rules out of range: the current rule is one of the rules after every line.
  pub load_never_panics :
      (lines : List Text) (broken : Option Text)
      → load std_parse lines broken ≢ err LoadError.index_panic
  unfolding load
  load_never_panics lines broken = not_panic _ (
      Safely-bind IsIndexed _ (parse_lines std_parse 1 lines new_parser) _
        (parse_lines-IsIndexed 1 lines new_parser tt) λ p h. checked-Quiet broken p)
