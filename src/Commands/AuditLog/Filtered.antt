-- ===== src/Commands/AuditLog/Filtered.antt =====
-- What `ribat audit` prints of a log that holds the events written.
use ribat.Base.{
  false, List, [], ◌∷◌, map, keep, Option, none, is_empty, Text, Result, ok, err, ◌≡◌, refl, ap,
  Bool-cases, inl, inr,
}
use ribat.Image.{Reference}
use ribat.Audit.{Event}
use ribat.Policy.{Config}
use ribat.Store.World.{World, call, gets, continue, ◌>>=◌}
use ribat.Store.World.Runs.{Runs, Runs-call, returns, fails}
use ribat.Commands.{Machine, Problem, success, of_result, conclude, concluded}
use ribat.Commands.Args.{AuditOptions, parse_audit_args}
use ribat.Commands.Configured.{load_policy}
use ribat.Commands.AuditLog.{
  Filters, Printed, passes, before, encoded, shown, print_events, ended, print_lines, audit_of,
  audit, run_audit, image_filter, cutoff, stop_code,
}
use ribat.Commands.AuditLog.Wanted.{
  IsWanted, IsNegatable, passes-IsWanted, Filtered, keep-Filtered, Asks, image_filter-Asks,
}

-- The log gives back what the encoder has put into it.
abbrev pub Decodes : Machine → List Event → Type 0
Decodes m [] = Unit
Decodes m (event ∷ events) = (m.decode_event (m.encode_event event) ≡ ok event) × Decodes m events

module _ (m : Machine) (f : Filters) where
  encoded_calm :
      (line : Text) (rest : World → Printed) (lines : List Text)
      → ((w : World) → w.faults ≡ [] → (rest w).0 ≡ (lines, none))
      → {w : World} {db : _} (r : Result Text (Unit {0}) × World) → Runs w (tt {0}) db r
      → w.faults ≡ []
      → (encoded m f line rest r).0 ≡ (line ∷ lines, none)
  unfolding encoded before
  encoded_calm line rest lines h (ok x, v) (returns same clear) calm =
      ap (λ p. (line ∷ p.0, p.1)) (h v (clear calm))
  encoded_calm line rest lines h (err e, v) (fails broken) calm = absurd (broken calm)

  print_events_calm :
      (events : List Event) (w : World)
      → Decodes m events
      → w.faults ≡ []
      → (print_events m f (map m.encode_event events) none w).0
        ≡ (map m.encode_event (keep (passes f) events), none)
  unfolding print_events shown keep
  print_events_calm [] w d calm = refl
  print_events_calm (event ∷ events) w (reads, d) calm =
      rw reads (elim (Bool-cases (passes f event)) [
        | inl e ↦ rw e (
            encoded_calm (m.encode_event event) _ _ (λ v c. print_events_calm events v d c)
              (call [] w) (Runs-call [] w) calm)
        | inr e ↦ rw e (print_events_calm events w d calm)
      ])

  concluded_lines :
      (p : Printed) (lines : List Text)
      → p.0 ≡ (lines, none)
      → (concluded (ended p)).0 ≡ success lines
  unfolding concluded ended stop_code
  concluded_lines (out, w) lines h =
      ap (λ (x : List Text × Option Problem). (concluded (ended (x, w))).0) h

module _ (m : Machine) (args : List Text) (w : World) where
  run_audit-passes :
      (options : AuditOptions) (cfg : Config) (image : Option Reference)
      → parse_audit_args m args ≡ ok options
      → load_policy m options.config_path ≡ ok cfg
      → is_empty cfg.audit.path ≡ false
      → image_filter m options.image_ref ≡ ok image
      → m.open_audit cfg.audit.path w.audit_log ≡ ok (map m.encode_event w.audit_log, none)
      → Decodes m w.audit_log
      → w.faults ≡ []
      → (run_audit m args w).0
        ≡ success (
            map m.encode_event (
              keep (passes (record { since = cutoff m options.since; image = image })) w.audit_log))
  unfolding run_audit audit audit_of conclude of_result gets ◌>>=◌ continue print_lines
  run_audit-passes options cfg image parses loads logs filter holds d calm =
      let f : Filters = record { since = cutoff m options.since; image = image } in
      rw (parses, loads, logs, filter, holds)
        (concluded_lines m f (print_events m f (map m.encode_event w.audit_log) none w) _
          (print_events_calm m f w.audit_log w d calm))

  -- If the arguments of `ribat audit` and its image, if any, parse, the duration of --since is not
  -- the least of 64 bits, the configuration names an audit log, that log opens with the encoded
  -- events as its lines and no error of the scanner, the decoder reads each of them back, and no
  -- call fails, then the run exits with 0 and prints, in the order of the log, exactly the events
  -- that are not older than the duration and are of the image: the place of an event, or where it
  -- has no registry, the place that its image parses to, has the registry, repository and tag of
  -- the image, and its digest if the image has one.
  pub run_audit-Filtered :
      (options : AuditOptions) (cfg : Config) (image : Option Reference)
      → parse_audit_args m args ≡ ok options
      → IsNegatable options.since
      → load_policy m options.config_path ≡ ok cfg
      → is_empty cfg.audit.path ≡ false
      → Asks options.image_ref image
      → m.open_audit cfg.audit.path w.audit_log ≡ ok (map m.encode_event w.audit_log, none)
      → Decodes m w.audit_log
      → w.faults ≡ []
      → (shown : List Event) × Filtered (IsWanted m.now options.since image) w.audit_log shown
        × ((run_audit m args w).0 ≡ success (map m.encode_event shown))
  run_audit-Filtered options cfg image parses small loads logs asks holds d calm =
      let f : Filters = record { since = cutoff m options.since; image = image } in
      (
        keep (passes f) w.audit_log,
        keep-Filtered _ (passes f) (λ event. passes-IsWanted m options.since image event small)
            w.audit_log,
        run_audit-passes options cfg image parses loads logs (image_filter-Asks m asks) holds d
            calm,
      )
