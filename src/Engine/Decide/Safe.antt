-- ===== src/Engine/Decide/Safe.antt =====
-- What the caller of `Decide` may rely on.
use ribat.Base.{
  Bool, true, false, [], Option, none, some, Text, Result, ok, err, ◌≡◌, ◌≢◌, refl, sym, ◌∙◌, subst,
  Bool-cases, inl, inr, if◌then◌else◌,
}
use ribat.Image.{Reference, ImageError, parse_reference}
use ribat.Audit.Logger.{record_event-Runs}
use ribat.Store.Rows.{Db}
use ribat.Store.Decisions.{insert_decision, record_decision}
use ribat.Store.World.{World, pure, raise, ◌>>=◌}
use ribat.Store.World.Runs.{Runs, Runs-pure, Runs-bind, Runs-statement, at}
use ribat.Engine.{
  Engine, Request, Decision, EngineError, zero_decision, no_store, try, record_outcome,
  record_audit, decision_record, decision_event,
}
use ribat.Engine.Ends.{Ends, ends, refuses, fails, Ends-pure, Ends-try, Ends-bind, Refused}
use ribat.Engine.Decide.{decide, parsed, returned, finish, record_error}
use ribat.Engine.Decide.Permitted.{permitted}
use ribat.Engine.Decide.Refines.{decide_reference-Ends}

-- The tables with one more decision.
abbrev pub with_decision : Engine → Request → Decision → Db → Db
with_decision e req d db = record db {
  pull_decisions = insert_decision (decision_record req d e.now) db.pull_decisions;
}

module _ (e : Engine) (req : Request) (d : Decision) where
  record_audit-Runs :
      (path : Option Text) (w : World)
      → Runs w (tt {0}) w.db (record_audit path (decision_event req d e.now) w)
  unfolding record_audit
  record_audit-Runs none w = Runs-pure tt w
  record_audit-Runs (some path) w = record_event-Runs path (decision_event req d e.now) w

  pub record_outcome-Runs :
      (w : World) → Runs w (tt {0}) (with_decision e req d w.db) (record_outcome e req d w)
  unfolding record_outcome record_decision
  record_outcome-Runs w =
      Runs-bind _ _ w (Runs-statement _ (with_decision e req d) w)
        λ w'. record_audit-Runs e.audit (at (with_decision e req d w.db) w')

-- The decision is as the specification says, and no error comes with it.
abbrev Final : Bool → Decision × Option EngineError → World → Type 0
Final b (d, m) w = (d.allowed ≡ b) × (m ≡ none)

-- A decision that comes with no error is a denial.
abbrev Closed : Decision × Option EngineError → Type 0
Closed (d, m) = m ≡ none → d.allowed ≡ false

module _ (e : Engine) (req : Request) where
  finish-Ends :
      {b : Bool} (d : Decision) (w : World)
      → d.allowed ≡ b
      → Ends (Final b) Closed w (finish e req d w)
  unfolding finish record_error pure
  finish-Ends d w says =
      Ends-try _ _ w (record_outcome-Runs e req d w) (λ w'. Ends-pure _ _ (says, refl))
        λ m w' none'. cc

  finish-Refused :
      (d : Decision) (w : World) → d.allowed ≡ false → Refused Closed (finish e req d w)
  unfolding finish try ◌>>=◌
  finish-Refused d w off = λ _. off

  parsed-Ends :
      (ref : Reference) (w : World)
      → Ends (Final (permitted e ref w.db)) Closed w (parsed e req (ok ref) w)
  unfolding parsed
  parsed-Ends ref w =
      Ends-bind _ _ w (decide_reference-Ends e ref w) (λ d w' says. finish-Ends d w' says)
        λ d w' off. finish-Refused d w' off

module _ {b : Bool} {w : World} where
  returned_safe :
      {r : Result EngineError (Decision × Option EngineError) × World}
      → Ends (Final b) Closed w r
      → (returned r).0.1 ≡ none
      → (returned r).0.0.allowed ≡ true
      → b ≡ true
  unfolding returned
  returned_safe (ends (says, _) clear) quiet allowed = sym says ∙ allowed
  returned_safe (refuses closed h) quiet allowed = cc (closed quiet)
  returned_safe (fails h) quiet allowed = cc

  returned_exact :
      {r : Result EngineError (Decision × Option EngineError) × World}
      → Ends (Final b) Closed w r
      → w.faults ≡ []
      → ((returned r).0.1 ≡ none) × ((returned r).0.0.allowed ≡ b)
  unfolding returned
  returned_exact (ends (says, quiet) clear) calm = (quiet, says)
  returned_exact (refuses closed h) calm = absurd (h calm)
  returned_exact (fails h) calm = absurd (h calm)

module _ (e : Engine) (req : Request) (ref : Reference) (w : World)
    (open_store : e.has_store ≡ true) (parses : parse_reference req.image_ref ≡ ok ref) where
  -- With an open store and a reference that parses, whatever external calls fail: if Decide returns
  -- no error and allows the pull, then the pull is permitted by the specification, which reads the
  -- policy, the freezes, approvals and bypasses, the age of the digest and the verification off the
  -- tables before the call.
  pub decide_safe :
      (decide e req w).0.1 ≡ none
      → (decide e req w).0.0.allowed ≡ true
      → permitted e ref w.db ≡ true
  unfolding decide
  decide_safe = simp (open_store, parses) (returned_safe (parsed-Ends e req ref w))

  -- With an open store, a reference that parses and no external call that fails, Decide returns no
  -- error and its decision allows the pull exactly if the specification permits it.
  pub decide_exact :
      w.faults ≡ []
      → ((decide e req w).0.1 ≡ none) × ((decide e req w).0.0.allowed ≡ permitted e ref w.db)
  unfolding decide
  decide_exact calm = simp (open_store, parses) (returned_exact (parsed-Ends e req ref w) calm)

if_returned :
    (has_store : Bool) (e : Engine) (req : Request) (m : ImageError) (w : World)
    → (if has_store
        then returned (parsed e req (err m) w)
        else ((zero_decision, some no_store), w)).0.1
      ≢ none
unfolding returned parsed raise
if_returned true e req m w quiet = cc
if_returned false e req m w quiet = cc

if_closed :
    (has_store : Bool) (out : (Decision × Option EngineError) × World) (w : World)
    → has_store ≡ false
    → (if has_store then out else ((zero_decision, some no_store), w)).0.1 ≢ none
if_closed true out w h quiet = cc
if_closed false out w h quiet = cc

module _ (e : Engine) (req : Request) (w : World) where
  quiet_parses :
      (r : Result ImageError Reference)
      → parse_reference req.image_ref ≡ r
      → (decide e req w).0.1 ≡ none
      → (ref : Reference) × (parse_reference req.image_ref ≡ ok ref)
  unfolding decide
  quiet_parses (ok ref) known quiet = (ref, known)
  quiet_parses (err m) known quiet = absurd (
      if_returned e.has_store e req m w (
        subst
          (λ r.
            (if e.has_store
              then returned (parsed e req r w)
              else ((zero_decision, some no_store), w)).0.1
            ≡ none)
          known quiet))

  pub quiet_opens : (decide e req w).0.1 ≡ none → e.has_store ≡ true
  unfolding decide
  quiet_opens quiet = elim (Bool-cases e.has_store) [
    | inl open_store ↦ open_store
    | inr shut ↦ absurd (if_closed e.has_store _ w shut quiet)
  ]

  -- A decision without an error needs no premise about the store and the reference.
  pub quiet_permitted :
      (decide e req w).0.1 ≡ none
      → (decide e req w).0.0.allowed ≡ true
      → (ref : Reference) × (parse_reference req.image_ref ≡ ok ref) × (permitted e ref w.db ≡ true)
  quiet_permitted quiet allowed =
      let (ref, parses) = quiet_parses (parse_reference req.image_ref) refl quiet in
      (ref, parses, decide_safe e req ref w (quiet_opens quiet) parses quiet allowed)
