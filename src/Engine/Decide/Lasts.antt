-- ===== src/Engine/Decide/Lasts.antt =====
-- What one call of `Decide`, and then any sequence of calls, keeps of the world.
use ribat.Base.{
  Bool, true, false, Option, none, some, List, [], ◌∷◌, ◌++◌, Text, Result, ok, err, if◌then◌else◌,
}
use ribat.Image.{Reference, ImageError, parse_reference}
use ribat.Audit.{Event}
use ribat.Audit.Logger.{record_event}
use ribat.Store.Rows.{DecisionRecord}
use ribat.Store.Decisions.{insert_decision, record_decision}
use ribat.Store.World.{World}
use ribat.Store.World.Runs.{at}
use ribat.Store.World.Keeps.{Keeps, Keeps-pure, Keeps-raise, Keeps-call, Keeps-change, Keeps-bind}
use ribat.Engine.{
  Engine, Request, Decision, EngineError, zero_decision, no_store, record_outcome, record_audit,
  decision_record, decision_event,
}
use ribat.Engine.Decide.{decide, parsed, returned, finish}
use ribat.Engine.Decide.Keeps.{Stable, Keeps-try, decide_reference-Keeps}

-- A relation that the statements of the engine keep, and the two writes that record a decision.
pub record Lasting : Type 1 where
  pub stable : Stable
  pub records :
      (d : DecisionRecord) (w : World)
      → stable.order.rel w
          (at (record w.db { pull_decisions = insert_decision d w.db.pull_decisions }) w)
  pub logs :
      (event : Event) (w : World)
      → stable.order.rel w (record w { audit_log = w.audit_log ++ event ∷ [] })

-- The world after the engines have decided the requests, one after the other.
unfoldable pub decide_all : List (Engine × Request) → World → World
decide_all [] w = w
decide_all ((e, req) ∷ calls) w = decide_all calls (decide e req w).1

module _ (l : Lasting) where
  pub record_event-Keeps :
      (path : Text) (event : Event) → Keeps l.stable.order (record_event path event)
  unfolding record_event
  record_event-Keeps [] event = record { kept = λ w. l.stable.order.same w }
  record_event-Keeps (c ∷ path) event =
      Keeps-bind l.stable.order _ _ (Keeps-call l.stable.order _)
        λ _. record { kept = l.logs event }

  pub record_audit-Keeps :
      (audit : Option Text) (event : Event) → Keeps l.stable.order (record_audit audit event)
  unfolding record_audit
  record_audit-Keeps none event = Keeps-pure l.stable.order _
  record_audit-Keeps (some path) event = record_event-Keeps path event

  module _ (e : Engine) (req : Request) where
    finish-Keeps : (d : Decision) → Keeps l.stable.order (finish e req d)
    unfolding finish record_outcome record_decision
    finish-Keeps d =
        Keeps-bind l.stable.order _ _
          (Keeps-try l.stable.order _ (
            Keeps-bind l.stable.order _ _
              (Keeps-bind l.stable.order _ _ (Keeps-call l.stable.order _)
                λ _. Keeps-change l.stable.order _ (l.records (decision_record req d e.now)))
              λ _. record_audit-Keeps e.audit (decision_event req d e.now)))
          λ _. Keeps-pure l.stable.order _

    parsed-Keeps : (r : Result ImageError Reference) → Keeps l.stable.order (parsed e req r)
    unfolding parsed
    parsed-Keeps (err m) = Keeps-raise l.stable.order _
    parsed-Keeps (ok ref) =
        Keeps-bind l.stable.order _ _ (decide_reference-Keeps l.stable e ref) finish-Keeps

    returned-Keeps :
        (r : Result EngineError (Decision × Option EngineError) × World) (w : World)
        → l.stable.order.rel w r.1
        → l.stable.order.rel w (returned r).1
    unfolding returned
    returned-Keeps (ok (d, m), w') w h = h
    returned-Keeps (err m, w') w h = h

    if_open :
        (has_store : Bool) (r : Result EngineError (Decision × Option EngineError) × World)
        (w : World)
        → l.stable.order.rel w r.1
        → l.stable.order.rel w
            (if has_store then returned r else ((zero_decision, some no_store), w)).1
    if_open true r w h = returned-Keeps r w h
    if_open false r w h = l.stable.order.same w

    pub decide_lasts : (w : World) → l.stable.order.rel w (decide e req w).1
    unfolding decide
    decide_lasts w =
        if_open e.has_store (parsed e req (parse_reference req.image_ref) w) w
          ((parsed-Keeps (parse_reference req.image_ref)).kept w)

  pub decide_all_lasts :
      (calls : List (Engine × Request)) (w : World) → l.stable.order.rel w (decide_all calls w)
  unfolding decide_all
  decide_all_lasts [] w = l.stable.order.same w
  decide_all_lasts ((e, req) ∷ calls) w =
      l.stable.order.after (decide_lasts e req w) (decide_all_lasts calls (decide e req w).1)
