-- ===== src/Commands/Args/Valid.antt =====
-- What holds of the options that the loop over the arguments gives.
use ribat.Base.{
  ℤ, pos, Bool, true, false, not, ◌&&◌, List, [], ◌∷◌, Option, none, some, is_some, Text, is_empty,
  leb_ℤ, ◌<ℤ◌, Result, ok, err, ◌>>=◌, guard, subst, ◌≡◌, refl, arith, Bool-cases, inl, inr,
}
use ribat.Policy.Duration.{DurationError, parse_duration}
use ribat.Commands.{Machine, UsageError}
use ribat.Commands.Args.{
  Flag, config_flag, ttl_flag, reason_flag, by_flag, image_flag, since_flag, input_flag,
  listen_flag, socket_flag, find_flag, find_inline, parse_from, parse_args, next_arg, at_flag,
  at_inline, settle, await, all_read, OperationOptions, set_operation, other_operation,
  operation_flags, no_operation, one_image, image_required, positive_ttl, parse_operation_args,
}

-- What holds of a result, if there is one.
abbrev Holds : {A : Type 0} → (A → Type 0) → Result UsageError A → Type 0
Holds P (ok a) = P a
Holds P (err e) = Unit

module _ {A B : Type 0} (P : A → Type 0) (Q : B → Type 0) where
  Holds-bind :
      (r : Result UsageError A) (k : A → Result UsageError B)
      → Holds P r
      → ((a : A) → P a → Holds Q (k a))
      → Holds Q (r >>= k)
  Holds-bind (ok a) k h next = next a h
  Holds-bind (err e) k h next = tt

module _ {O : Type 0} (flags : List Flag) (set : Flag → Text → O → Result UsageError O)
    (other : Text → O → Result UsageError O) (P : O → Type 0)
    (sets : (f : Flag) (value : Text) (o : O) → P o → Holds P (set f value o))
    (others : (arg : Text) (o : O) → P o → Holds P (other arg o)) where
  settle-Holds :
      (r : Result UsageError O) → Holds P r → Holds (λ s. P s.1) (settle flags set other r)
  unfolding settle
  settle-Holds (ok o) h = h
  settle-Holds (err e) h = tt

  at_inline-Holds :
      (arg : Text) (o : O) (found : Option (Flag × Text))
      → P o
      → Holds P (at_inline flags set other arg o found)
  unfolding at_inline
  at_inline-Holds arg o none h = others arg o h
  at_inline-Holds arg o (some (f, value)) h = sets f value o h

  at_flag-Holds :
      (arg : Text) (o : O) (found : Option Flag)
      → P o
      → Holds (λ s. P s.1) (at_flag flags set other arg o found)
  unfolding at_flag await
  at_flag-Holds arg o none h = settle-Holds _ (at_inline-Holds arg o (find_inline flags arg) h)
  at_flag-Holds arg o (some f) h = h

  next_arg-Holds :
      (arg : Text) (waiting : Option Flag) (o : O)
      → P o
      → Holds (λ s. P s.1) (next_arg flags set other arg (waiting, o))
  unfolding next_arg
  next_arg-Holds arg none o h = at_flag-Holds arg o (find_flag flags arg) h
  next_arg-Holds arg (some f) o h = settle-Holds _ (sets f arg o h)

  all_read-Holds :
      (waiting : Option Flag) (o : O) → P o → Holds P (all_read flags set other (waiting, o))
  unfolding all_read
  all_read-Holds none o h = h
  all_read-Holds (some f) o h = tt

  -- What each step keeps holds at the end of the loop.
  parse_from-Holds :
      (args : List Text) (waiting : Option Flag) (o : O)
      → P o
      → Holds P (parse_from flags set other args (waiting, o))
  unfolding parse_from
  parse_from-Holds [] waiting o h = all_read-Holds waiting o h
  parse_from-Holds (arg ∷ args) waiting o h =
      Holds-bind (λ s. P s.1) P (next_arg flags set other arg (waiting, o)) _
        (next_arg-Holds arg waiting o h) λ (later, o') h'. parse_from-Holds args later o' h'

-- A lifetime is positive.
abbrev pub IsPositive : Option ℤ → Type 0
IsPositive none = Unit
IsPositive (some d) = pos 0 <ℤ d

positive_ttl-Holds : (r : Result DurationError ℤ) → Holds (λ d. pos 0 <ℤ d) (positive_ttl r)
unfolding positive_ttl
positive_ttl-Holds (err e) = tt
positive_ttl-Holds (ok d) = elim (Bool-cases (leb_ℤ d (pos 0))) [
  | inl e ↦ rw e tt
  | inr e ↦ rw e (ground arith)
]

abbrev Lasting : OperationOptions → Type 0
Lasting o = IsPositive o.ttl

any_result : {A : Type 0} (r : Result UsageError A) → Holds (λ a. Unit) r
any_result (ok a) = tt
any_result (err e) = tt

set_operation-Holds :
    (std_parse : Text → Option ℤ) (f : Flag) (value : Text) (o : OperationOptions)
    → IsPositive o.ttl
    → Holds Lasting (set_operation std_parse f value o)
unfolding set_operation
set_operation-Holds std_parse config_flag value o h = h
set_operation-Holds std_parse ttl_flag value o h =
    Holds-bind (λ d. pos 0 <ℤ d) Lasting (positive_ttl (parse_duration std_parse value)) _
      (positive_ttl-Holds (parse_duration std_parse value)) λ d positive. positive
set_operation-Holds std_parse reason_flag value o h = h
set_operation-Holds std_parse by_flag value o h = h
set_operation-Holds std_parse image_flag value o h = h
set_operation-Holds std_parse since_flag value o h = h
set_operation-Holds std_parse input_flag value o h = h
set_operation-Holds std_parse listen_flag value o h = h
set_operation-Holds std_parse socket_flag value o h = h

other_operation-Holds :
    (command arg : Text) (o : OperationOptions)
    → IsPositive o.ttl
    → Holds Lasting (other_operation command arg o)
unfolding other_operation
other_operation-Holds command arg o h =
    Holds-bind (λ x. Unit) Lasting (one_image command arg o.image_ref) _
      (any_result (one_image command arg o.image_ref)) λ x y. h

-- The options of a grant: an image, a positive lifetime, and for a bypass a lifetime at all.
pub record IsUsable (require_ttl : Bool) (o : OperationOptions) : Type 0 where
  pub filled : is_empty o.image_ref ≡ false
  pub positive : IsPositive o.ttl
  pub bounded : (require_ttl && not (is_some o.ttl)) ≡ false

guarded :
    (passed : Bool) (e : UsageError) → Holds (λ (x : Unit {0}). passed ≡ true) (guard passed e)
guarded true e = refl
guarded false e = tt

parse_operation_args-Holds :
    (m : Machine) (args : List Text) (command : Text) (require_ttl : Bool)
    → Holds (IsUsable require_ttl) (parse_operation_args m args command require_ttl)
unfolding parse_operation_args parse_args image_required no_operation
parse_operation_args-Holds m args command require_ttl =
    Holds-bind Lasting (IsUsable require_ttl)
      (parse_from operation_flags (set_operation m.std_parse) (other_operation command) args
        (none, no_operation m))
      _
      (parse_from-Holds operation_flags (set_operation m.std_parse) (other_operation command)
        Lasting (set_operation-Holds m.std_parse) (other_operation-Holds command) args none
        (no_operation m) tt)
      λ o positive.
        Holds-bind (λ x. not (is_empty o.image_ref) ≡ true) (IsUsable require_ttl)
          (image_required command o.image_ref) _ (guarded (not (is_empty o.image_ref)) _)
          λ x filled.
            Holds-bind (λ y. not (require_ttl && not (is_some o.ttl)) ≡ true) (IsUsable require_ttl)
              (guard (not (require_ttl && not (is_some o.ttl))) _) _
              (guarded (not (require_ttl && not (is_some o.ttl))) _)
              λ y bounded. record {
                filled = ground (arith, filled);
                positive = positive;
                bounded = ground (arith, bounded);
              }

-- The options that parse from any arguments of a grant have an image that is not empty, a lifetime
-- that is positive where there is one, and a lifetime where the command requires one.
pub parse_operation_args-IsUsable :
    (m : Machine) (args : List Text) (command : Text) (require_ttl : Bool) (o : OperationOptions)
    → parse_operation_args m args command require_ttl ≡ ok o
    → IsUsable require_ttl o
parse_operation_args-IsUsable m args command require_ttl o h =
    subst (Holds (IsUsable require_ttl)) h (parse_operation_args-Holds m args command require_ttl)
