-- ===== src/Commands/AuditLog.antt =====
-- `runAudit`: the events of the audit log that pass the filters.
pub mod Wanted
pub mod Filtered
use ribat.Base.{
  ℤ, Bool, true, not, ◌&&◌, ◌||◌, List, [], ◌∷◌, Option, none, some, if◌then◌else◌, Text, text_eq,
  is_empty, ltb_ℤ, suc, pos, negsuc, wrap64, ◌-ℤ◌, Result, ok, err,
}
use ribat.Time.{Time, add_time}
use ribat.Image.{Reference, parse_reference, ImageError}
use ribat.Audit.{Event}
use ribat.Policy.{Config}
use ribat.Store.World.{World, Act, raise, gets, call, ◌>>=◌}
use ribat.Commands.{
  Machine, bad_image, Problem, usage_error, audit_path_required, audit_not_opened, bad_audit_line,
  audit_not_printed, audit_unread, Outcome, success, of_result, exit_code, conclude,
}
use ribat.Commands.Args.{AuditOptions, parse_audit_args}
use ribat.Commands.Configured.{load_policy}

located : Event → Result ImageError Reference → Event
located event (err e) = event
located event (ok ref) = record event {
  registry = ref.registry;
  repository = ref.repository;
  tag = ref.tag;
  digest = ref.digest;
}

-- An event with no registry takes its place from its image, where that parses.
unfoldable pub with_location : Event → Event
unfolding located
with_location event =
    if is_empty event.registry && not (is_empty event.image_ref)
    then located event (parse_reference event.image_ref)
    else event

unfoldable pub is_at : Reference → Event → Bool
is_at filter event =
    text_eq event.registry filter.registry
    && (text_eq event.repository filter.repository
        && (text_eq event.tag filter.tag
            && (is_empty filter.digest || text_eq event.digest filter.digest)))

unfoldable pub audit_event_matches_image : Event → Reference → Bool
unfolding with_location is_at
audit_event_matches_image event filter = is_at filter (with_location event)

-- The two filters, each of which may be absent.
pub record Filters : Type 0 where
  pub since : Option Time
  pub image : Option Reference

is_since : Option Time → Event → Bool
is_since none event = true
is_since (some cutoff) event = not (ltb_ℤ event.timestamp cutoff)

is_of_image : Option Reference → Event → Bool
unfolding audit_event_matches_image
is_of_image none event = true
is_of_image (some ref) event = audit_event_matches_image event ref

unfoldable pub passes : Filters → Event → Bool
unfolding is_since is_of_image
passes f event = is_since f.since event && is_of_image f.image event

-- What has been printed, and the problem that has stopped the loop, if any.
abbrev pub Printed : Type 0
Printed = (List Text × Option Problem) × World

module _ (m : Machine) (f : Filters) where
  -- A line in front of what the rest of the loop prints.
  unfoldable pub before : Text → Printed → Printed
  before line ((lines, p), w) = ((line ∷ lines, p), w)

  -- `Encode`, which may fail, and the rest of the loop.
  unfoldable pub encoded : Text → (World → Printed) → Result Text (Unit {0}) × World → Printed
  unfolding before
  encoded line rest (err e, w) = (([], some (audit_not_printed e)), w)
  encoded line rest (ok x, w) = before line (rest w)

  unfoldable pub shown : (World → Printed) → Result Text Event → World → Printed
  unfolding encoded
  shown rest (err e) w = (([], some (bad_audit_line e)), w)
  shown rest (ok event) w =
      if passes f event then encoded (m.encode_event event) rest (call [] w) else rest w

  unfoldable pub print_events : List Text → Option Text → World → Printed
  unfolding shown
  print_events [] none w = (([], none), w)
  print_events [] (some e) w = (([], some (audit_unread e)), w)
  print_events (line ∷ lines) broken w =
      shown (λ v. print_events lines broken v) (m.decode_event line) w

stop_code : Option Problem → Outcome → Outcome
stop_code none o = o
stop_code (some p) o = record o { code = exit_code p; problem = some p }

unfoldable pub ended : Printed → Result Problem Outcome × World
unfolding stop_code
ended ((lines, p), w) = (ok (stop_code p (success lines)), w)

filter_of : Result ImageError Reference → Result ImageError (Option Reference)
filter_of (ok ref) = ok (some ref)
filter_of (err e) = err e

-- `-d` in 64 bits.
negated : ℤ → ℤ
negated (pos n) = pos 0 -ℤ pos n
negated (negsuc n) = wrap64 (suc n)

module _ (m : Machine) where
  unfoldable pub image_filter : Text → Result ImageError (Option Reference)
  unfolding filter_of
  image_filter s = if is_empty s then ok none else filter_of (parse_reference s)

  unfoldable pub cutoff : Option ℤ → Option Time
  unfolding negated
  cutoff none = none
  cutoff (some d) = some (add_time m.now (negated d))

  unfoldable pub print_lines : Filters → List Text × Option Text → Act Problem Outcome
  unfolding ended print_events
  print_lines f (lines, broken) w = ended (print_events m f lines broken w)

  unfoldable pub audit_of : Config → AuditOptions → Act Problem Outcome
  unfolding image_filter cutoff print_lines
  audit_of cfg o = do
    log ← gets (λ w. w.audit_log)
    file ← of_result audit_not_opened (m.open_audit cfg.audit.path log)
    filter ← of_result (λ e. usage_error (bad_image e)) (image_filter o.image_ref)
    print_lines (record { since = cutoff o.since; image = filter }) file

  unfoldable pub audit : List Text → Act Problem Outcome
  unfolding audit_of
  audit args = do
    o ← of_result usage_error (parse_audit_args m args)
    cfg ← of_result (λ p. p) (load_policy m o.config_path)
    if is_empty cfg.audit.path then raise audit_path_required else audit_of cfg o

  unfoldable pub run_audit : List Text → World → Outcome × World
  unfolding audit
  run_audit args = conclude (audit args)
