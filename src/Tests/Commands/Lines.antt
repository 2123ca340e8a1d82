-- ===== src/Tests/Commands/Lines.antt =====
-- Command lines of the grants and what they are read as.
use ribat.Base.{
  ℕ, ◌*◌, ℤ, pos, Bool, true, false, List, [], ◌∷◌, Option, none, some, Text, codes, Result, ok,
  refl, ◌≡◌,
}
use ribat.Commands.{Machine, UsageError}
use ribat.Commands.Args.{
  OperationOptions, reason_flag, flag_name, operation_flags, parse_from, parse_operation_args,
  set_operation, other_operation, no_operation,
}
use ribat.Commands.Args.Loop.{inline, parse_from-inline}
use ribat.Commands.Args.Lines.{operation_line, parse_operation_args-operation_line}
use ribat.Commands.Args.Valid.{IsUsable, parse_operation_args-IsUsable}
use ribat.Tests.{hour}
use ribat.Tests.Commands.{sample_machine}

abbrev day_options : OperationOptions
day_options = record {
  config_path = codes "ribat.yaml";
  image_ref = codes "nginx";
  ttl = some (pos (24 * hour));
  reason = codes "incident";
  actor = codes "alice";
}

abbrev read_one : Text → OperationOptions → Result UsageError OperationOptions
read_one = other_operation (codes "freeze")

parse_from-inline_example :
    parse_from operation_flags
      (set_operation sample_machine.std_parse)
      read_one
      (inline reason_flag (codes "a=b") ∷ codes "nginx" ∷ [])
      (none, no_operation sample_machine)
    ≡ parse_from operation_flags
        (set_operation sample_machine.std_parse)
        read_one
        (flag_name reason_flag ∷ codes "a=b" ∷ codes "nginx" ∷ [])
        (none, no_operation sample_machine)
unfolding ribat.Commands.Args.find_flag ribat.Base.text_eq codes
parse_from-inline_example =
    parse_from-inline operation_flags (set_operation sample_machine.std_parse) read_one reason_flag
      (codes "a=b") (codes "nginx" ∷ []) (no_operation sample_machine) refl

parse_operation_args-operation_line_example :
    parse_operation_args sample_machine
      (operation_line day_options (some (codes "1d")))
      (codes "bypass")
      true
    ≡ ok day_options
unfolding codes ribat.Base.has_prefix ribat.Policy.Duration.parse_duration
    ribat.Policy.Duration.atoi ribat.Base.wrap64
parse_operation_args-operation_line_example =
    parse_operation_args-operation_line sample_machine day_options (codes "bypass") true
      (some (codes "1d")) refl refl (refl, refl) refl

parse_operation_args-IsUsable_example : IsUsable true day_options
parse_operation_args-IsUsable_example =
    parse_operation_args-IsUsable sample_machine (operation_line day_options (some (codes "1d")))
      (codes "bypass") true day_options parse_operation_args-operation_line_example
