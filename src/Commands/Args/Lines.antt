-- ===== src/Commands/Args/Lines.antt =====
-- From the options of a grant to a command line and back.
use ribat.Base.{
  ℤ, pos, Bool, false, not, ◌&&◌, List, [], ◌∷◌, ◌++◌, Option, none, some, is_some, Text, codes,
  text_eq, has_prefix, is_empty, leb_ℤ, Result, ok, err, ◌>>=◌, ◌≡◌, refl, ◌∙◌, arith,
}
use ribat.Policy.Duration.{parse_duration}
use ribat.Commands.{Machine, UsageError}
use ribat.Commands.Args.{
  Flag, config_flag, ttl_flag, reason_flag, by_flag, image_flag, since_flag, input_flag,
  listen_flag, socket_flag, flag_name, find_flag, find_inline, parse_from, parse_args, next_arg,
  at_flag, at_inline, settle, all_read, OperationOptions, set_operation, other_operation,
  operation_flags, no_operation, one_image, image_required, positive_ttl, parse_operation_args,
}
use ribat.Commands.Args.Loop.{parse_from-flag}

-- Flags with their values, as arguments.
pub spell : List (Flag × Text) → List Text
spell [] = []
spell ((f, value) ∷ settings) = flag_name f ∷ value ∷ spell settings

starts : (f : Flag) → (rest : Text) × (flag_name f ≡ b'-' ∷ rest)
unfolding flag_name codes
starts config_flag = (_, refl)
starts ttl_flag = (_, refl)
starts reason_flag = (_, refl)
starts by_flag = (_, refl)
starts image_flag = (_, refl)
starts since_flag = (_, refl)
starts input_flag = (_, refl)
starts listen_flag = (_, refl)
starts socket_flag = (_, refl)

differs : (arg rest : Text) → has_prefix arg (b'-' ∷ []) ≡ false → text_eq arg (b'-' ∷ rest) ≡ false
unfolding has_prefix text_eq
differs [] rest h = refl
differs (c ∷ arg) rest h = ground arith

differs_prefix :
    (arg rest : Text) → has_prefix arg (b'-' ∷ []) ≡ false → has_prefix arg (b'-' ∷ rest) ≡ false
unfolding has_prefix
differs_prefix [] rest h = refl
differs_prefix (c ∷ arg) rest h = ground arith

module _ (arg : Text) (plain : has_prefix arg (b'-' ∷ []) ≡ false) where
  find_flag-plain : (flags : List Flag) → find_flag flags arg ≡ none
  unfolding find_flag
  find_flag-plain [] = refl
  find_flag-plain (g ∷ flags) =
      let (rest, e) = starts g in rw (e, differs arg rest plain) (find_flag-plain flags)

  find_inline-plain : (flags : List Flag) → find_inline flags arg ≡ none
  unfolding find_inline
  find_inline-plain [] = refl
  find_inline-plain (g ∷ flags) =
      let (rest, e) = starts g in
      rw (e, differs_prefix arg (rest ++ b'=' ∷ []) plain) (find_inline-plain flags)

module _ {O : Type 0} (flags : List Flag) (set : Flag → Text → O → Result UsageError O)
    (other : Text → O → Result UsageError O) where
  -- The values, one after the other.
  unfoldable apply_all : List (Flag × Text) → O → Result UsageError O
  apply_all [] o = ok o
  apply_all ((f, value) ∷ settings) o = set f value o >>= apply_all settings

  -- All flags are flags of the command.
  abbrev Known : List (Flag × Text) → Type 0
  Known [] = Unit
  Known ((f, value) ∷ settings) = (find_flag flags (flag_name f) ≡ some f) × Known settings

  parse_from-spell :
      (settings : List (Flag × Text)) (args : List Text) (o : O)
      → Known settings
      → parse_from flags set other (spell settings ++ args) (none, o)
        ≡ (apply_all settings o >>= λ o'. parse_from flags set other args (none, o'))
  unfolding spell apply_all
  parse_from-spell [] args o k = refl
  parse_from-spell ((f, value) ∷ settings) args o (known, k) =
      parse_from-flag flags set other f value (spell settings ++ args) o known
      ∙ bound (λ x. parse_from-spell settings args x k) (set f value o)
    where
      bound :
          ((x : O)
            → parse_from flags set other (spell settings ++ args) (none, x)
              ≡ (apply_all settings x >>= λ o'. parse_from flags set other args (none, o')))
          → (r : Result UsageError O)
          → (r >>= λ o'. parse_from flags set other (spell settings ++ args) (none, o'))
            ≡ ((r >>= apply_all settings) >>= λ o'. parse_from flags set other args (none, o'))
      bound later (ok x) = later x
      bound later (err e) = refl

  parse_from-plain :
      (arg : Text) (args : List Text) (o : O)
      → has_prefix arg (b'-' ∷ []) ≡ false
      → parse_from flags set other (arg ∷ args) (none, o)
        ≡ (other arg o >>= λ o'. parse_from flags set other args (none, o'))
  unfolding parse_from next_arg at_flag at_inline settle
  parse_from-plain arg args o plain =
      rw (find_flag-plain arg plain flags, find_inline-plain arg plain flags)
        (settled (other arg o))
    where
      settled :
          (r : Result UsageError O)
          → (settle flags set other r >>= parse_from flags set other args)
            ≡ (r >>= λ o'. parse_from flags set other args (none, o'))
      settled (ok x) = refl
      settled (err e) = refl

-- The text is that of the duration, where there is one.
abbrev pub IsTtl : (Text → Option ℤ) → Option Text → Option ℤ → Type 0
IsTtl std_parse none none = Unit
IsTtl std_parse (some t) (some d) = (parse_duration std_parse t ≡ ok d) × (leb_ℤ d (pos 0) ≡ false)
IsTtl std_parse _ _ = ⊥

unfoldable pub ttl_setting : Option Text → List (Flag × Text)
ttl_setting none = []
ttl_setting (some t) = (ttl_flag, t) ∷ []

-- The arguments that set every option.
unfoldable pub operation_line : OperationOptions → Option Text → List Text
unfolding spell ttl_setting
operation_line o ttl =
    spell (
      (config_flag, o.config_path) ∷ (reason_flag, o.reason) ∷ (by_flag, o.actor) ∷ ttl_setting ttl)
    ++ o.image_ref ∷ []

module _ (m : Machine) (o : OperationOptions) (command : Text) where
  operation_flags-Known :
      (ttl : Option Text)
      → Known operation_flags (set_operation m.std_parse) (other_operation command) (
          (config_flag, o.config_path)
          ∷ (reason_flag, o.reason)
          ∷ (by_flag, o.actor)
          ∷ ttl_setting ttl)
  unfolding ttl_setting find_flag flag_name codes text_eq
  operation_flags-Known none = (refl, (refl, (refl, tt)))
  operation_flags-Known (some t) = (refl, (refl, (refl, (refl, tt))))

  settings_applied :
      (ttl : Option Text) (d : Option ℤ)
      → IsTtl m.std_parse ttl d
      → apply_all operation_flags
          (set_operation m.std_parse)
          (other_operation command)
          ((config_flag, o.config_path)
            ∷ (reason_flag, o.reason)
            ∷ (by_flag, o.actor)
            ∷ ttl_setting ttl)
          (no_operation m)
        ≡ ok (record o { image_ref = []; ttl = d })
  unfolding apply_all ttl_setting set_operation positive_ttl no_operation
  settings_applied none none h = refl
  settings_applied none (some d) h = absurd h
  settings_applied (some t) none h = absurd h
  settings_applied (some t) (some d) (parses, positive) = rw (parses, positive) refl

  -- The options of a grant, written out as flags with their values and an image at the end, parse
  -- to the same options, if the image is not empty and does not start with a dash, the text of the
  -- lifetime, where there is one, parses as that positive duration, and a command that requires a
  -- lifetime has one.
  pub parse_operation_args-operation_line :
      (require_ttl : Bool) (ttl : Option Text)
      → is_empty o.image_ref ≡ false
      → has_prefix o.image_ref (b'-' ∷ []) ≡ false
      → IsTtl m.std_parse ttl o.ttl
      → (require_ttl && not (is_some o.ttl)) ≡ false
      → parse_operation_args m (operation_line o ttl) command require_ttl ≡ ok o
  unfolding parse_operation_args parse_args operation_line other_operation one_image image_required
      parse_from all_read
  parse_operation_args-operation_line require_ttl ttl filled plain h has_ttl =
      rw
        (
          parse_from-spell operation_flags (set_operation m.std_parse) (other_operation command) _
              (o.image_ref ∷ []) (no_operation m) (operation_flags-Known ttl),
          settings_applied ttl o.ttl h,
          parse_from-plain operation_flags (set_operation m.std_parse) (other_operation command)
              o.image_ref [] (record o { image_ref = [] }) plain,
          plain,
          filled,
          has_ttl,
        )
        refl
