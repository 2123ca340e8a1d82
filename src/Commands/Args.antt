-- ===== src/Commands/Args.antt =====
-- `parseConfigAndImage`, `parseOperationArgs` and the other loops over the arguments. Each of them
-- takes `--flag VALUE` and `--flag=VALUE` for its flags; the rest differs from command to command.
pub mod Loop
pub mod Lines
pub mod Valid
use ribat.Base.{
  ℤ, pos, Bool, not, ◌&&◌, List, [], ◌∷◌, ◌++◌, Option, none, some, is_some, if◌then◌else◌, Text,
  codes, text_eq, is_empty, has_prefix, trim_prefix, leb_ℤ, Result, ok, err, ◌>>=◌, ◌>>◌, guard,
}
use ribat.Policy.Duration.{DurationError, parse_duration}
use ribat.Commands.{
  UsageError, missing_value, unknown_flag, missing_image, unknown_argument, extra_argument, bad_ttl,
  bad_since, ttl_not_positive, ttl_required, Machine, default_config_path, current_actor,
}

pub data Flag : Type 0 where
  config_flag ttl_flag reason_flag by_flag image_flag since_flag input_flag : Flag
  listen_flag socket_flag : Flag

unfoldable pub flag_name : Flag → Text
flag_name config_flag = codes "--config"
flag_name ttl_flag = codes "--ttl"
flag_name reason_flag = codes "--reason"
flag_name by_flag = codes "--by"
flag_name image_flag = codes "--image"
flag_name since_flag = codes "--since"
flag_name input_flag = codes "--input"
flag_name listen_flag = codes "--listen"
flag_name socket_flag = codes "--socket"

-- The `case` of the argument.
unfoldable pub find_flag : List Flag → Text → Option Flag
unfolding flag_name
find_flag [] arg = none
find_flag (f ∷ fs) arg =
    let later = find_flag fs arg in if text_eq arg (flag_name f) then some f else later

-- The `strings.HasPrefix` of the `default` case, with what `strings.TrimPrefix` leaves.
unfoldable pub find_inline : List Flag → Text → Option (Flag × Text)
unfolding flag_name
find_inline [] arg = none
find_inline (f ∷ fs) arg =
    let later = find_inline fs arg in
    let prefix = flag_name f ++ b'=' ∷ [] in
    if has_prefix arg prefix then some (f, trim_prefix arg prefix) else later

-- `O` are the options of a command, `flags` its flags in the order of the source, `set` what a value
-- does, and `other` what an argument does that is no flag of the command.
module _ {O : Type 0} (flags : List Flag) (set : Flag → Text → O → Result UsageError O)
    (other : Text → O → Result UsageError O) where
  -- A flag waits for the next argument.
  await : Flag → O → Option Flag × O
  await f o = (some f, o)

  settle : Result UsageError O → Result UsageError (Option Flag × O)
  settle (ok o) = ok (none, o)
  settle (err e) = err e

  at_inline : Text → O → Option (Flag × Text) → Result UsageError O
  at_inline arg o none = other arg o
  at_inline arg o (some (f, value)) = set f value o

  at_flag : Text → O → Option Flag → Result UsageError (Option Flag × O)
  unfolding await settle at_inline
  at_flag arg o none = settle (at_inline arg o (find_inline flags arg))
  at_flag arg o (some f) = ok (await f o)

  -- One turn of the loop.
  unfoldable pub next_arg : Text → Option Flag × O → Result UsageError (Option Flag × O)
  unfolding at_flag settle
  next_arg arg (none, o) = at_flag arg o (find_flag flags arg)
  next_arg arg (some f, o) = settle (set f arg o)

  all_read : Option Flag × O → Result UsageError O
  unfolding flag_name
  all_read (none, o) = ok o
  all_read (some f, o) = err (missing_value (flag_name f))

  unfoldable pub parse_from : List Text → Option Flag × O → Result UsageError O
  unfolding next_arg all_read
  parse_from [] state = all_read state
  parse_from (arg ∷ args) state = next_arg arg state >>= parse_from args

  unfoldable pub parse_args : List Text → O → Result UsageError O
  unfolding parse_from
  parse_args args o = parse_from args (none, o)

pub record ImageOptions : Type 0 where
  pub config_path : Text
  pub image_ref : Text

pub record OperationOptions : Type 0 where
  pub config_path : Text
  pub image_ref : Text
  pub ttl : Option ℤ
  pub reason : Text
  pub actor : Text

pub record AuditOptions : Type 0 where
  pub config_path : Text
  pub image_ref : Text
  pub since : Option ℤ

pub record ImportOptions : Type 0 where
  pub config_path : Text
  pub input_path : Text

pub record ServerOptions : Type 0 where
  pub config_path : Text
  pub address : Text

-- An argument that is no flag, where the command takes one image.
unfoldable pub one_image : Text → Text → Text → Result UsageError Text
one_image command arg image_ref =
    if has_prefix arg (b'-' ∷ [])
    then err (unknown_flag arg)
    else if not (is_empty image_ref)
    then err (extra_argument command arg)
    else ok arg

unfoldable pub image_required : Text → Text → Result UsageError (Unit {0})
image_required command image_ref = guard (not (is_empty image_ref)) (missing_image command)

set_image_config : Flag → Text → ImageOptions → Result UsageError ImageOptions
set_image_config f value o = ok (record o { config_path = value })

other_image : Text → Text → ImageOptions → Result UsageError ImageOptions
unfolding one_image
other_image command arg o = do
  image_ref ← one_image command arg o.image_ref
  ok (record o { image_ref = image_ref })

unfoldable pub parse_config_and_image : Machine → List Text → Text → Result UsageError ImageOptions
unfolding set_image_config other_image image_required
parse_config_and_image m args command = do
  o ←
      parse_args (config_flag ∷ []) set_image_config (other_image command) args
        (record { config_path = default_config_path m; image_ref = [] })
  image_required command o.image_ref
  ok o

-- The value of `--ttl`.
unfoldable pub positive_ttl : Result DurationError ℤ → Result UsageError ℤ
positive_ttl (err e) = err (bad_ttl e)
positive_ttl (ok d) = if leb_ℤ d (pos 0) then err ttl_not_positive else ok d

unfoldable pub set_operation :
    (Text → Option ℤ) → Flag → Text → OperationOptions → Result UsageError OperationOptions
unfolding positive_ttl
set_operation std_parse config_flag value o = ok (record o { config_path = value })
set_operation std_parse ttl_flag value o = do
  d ← positive_ttl (parse_duration std_parse value)
  ok (record o { ttl = some d })
set_operation std_parse reason_flag value o = ok (record o { reason = value })
set_operation std_parse by_flag value o = ok (record o { actor = value })
set_operation std_parse _ value o = ok o

unfoldable pub other_operation : Text → Text → OperationOptions → Result UsageError OperationOptions
unfolding one_image
other_operation command arg o = do
  image_ref ← one_image command arg o.image_ref
  ok (record o { image_ref = image_ref })

abbrev pub operation_flags : List Flag
operation_flags = config_flag ∷ ttl_flag ∷ reason_flag ∷ by_flag ∷ []

unfoldable pub no_operation : Machine → OperationOptions
no_operation m = record {
  config_path = default_config_path m;
  image_ref = [];
  ttl = none;
  reason = [];
  actor = current_actor m;
}

unfoldable pub parse_operation_args :
    Machine → List Text → Text → Bool → Result UsageError OperationOptions
unfolding set_operation other_operation no_operation image_required
parse_operation_args m args command require_ttl = do
  o ←
      parse_args operation_flags (set_operation m.std_parse) (other_operation command) args
        (no_operation m)
  image_required command o.image_ref
  guard (not (require_ttl && not (is_some o.ttl))) (ttl_required command)
  ok o

since_value : Result DurationError ℤ → Result UsageError ℤ
since_value (err e) = err (bad_since e)
since_value (ok d) = ok d

set_audit : (Text → Option ℤ) → Flag → Text → AuditOptions → Result UsageError AuditOptions
unfolding since_value
set_audit std_parse config_flag value o = ok (record o { config_path = value })
set_audit std_parse image_flag value o = ok (record o { image_ref = value })
set_audit std_parse since_flag value o = do
  d ← since_value (parse_duration std_parse value)
  ok (record o { since = some d })
set_audit std_parse _ value o = ok o

unknown : {O : Type 0} → Text → Text → O → Result UsageError O
unknown command arg o = err (unknown_argument arg command)

unfoldable pub parse_audit_args : Machine → List Text → Result UsageError AuditOptions
unfolding set_audit unknown
parse_audit_args m args =
    parse_args (config_flag ∷ image_flag ∷ since_flag ∷ []) (set_audit m.std_parse)
      (unknown (codes "audit")) args
      (record { config_path = default_config_path m; image_ref = []; since = none })

set_config : Flag → Text → Text → Result UsageError Text
set_config f value config_path = ok value

unfoldable pub parse_config_only : Machine → List Text → Text → Result UsageError Text
unfolding set_config unknown
parse_config_only m args command =
    parse_args (config_flag ∷ []) set_config (unknown command) args (default_config_path m)

set_import : Flag → Text → ImportOptions → Result UsageError ImportOptions
set_import config_flag value o = ok (record o { config_path = value })
set_import input_flag value o = ok (record o { input_path = value })
set_import _ value o = ok o

unfoldable pub parse_import_args : Machine → List Text → Result UsageError ImportOptions
unfolding set_import unknown
parse_import_args m args =
    parse_args (config_flag ∷ input_flag ∷ []) set_import (unknown (codes "import-state")) args
      (record { config_path = default_config_path m; input_path = [] })

set_server : Flag → Text → ServerOptions → Result UsageError ServerOptions
set_server config_flag value o = ok (record o { config_path = value })
set_server _ value o = ok (record o { address = value })

-- The loops of `runProxy` and `runAuthz`, with the flag of the address and the error when it is missing.
unfoldable pub parse_server_args :
    Machine → List Text → Text → Flag → UsageError → Result UsageError ServerOptions
unfolding set_server unknown
parse_server_args m args command address_flag missing = do
  o ←
      parse_args (config_flag ∷ address_flag ∷ []) set_server (unknown command) args
        (record { config_path = default_config_path m; address = [] })
  guard (not (is_empty o.address)) missing
  ok o
