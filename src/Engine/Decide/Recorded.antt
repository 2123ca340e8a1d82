-- ===== src/Engine/Decide/Recorded.antt =====
-- What `Decide` leaves behind: its decision, in the tables and in the audit log.
use ribat.Base.{Option, none, some, List, [], ◌∷◌, ◌++◌, Text, ◌≡◌, refl, ◌∙◌}
use ribat.Audit.{Event}
use ribat.Store.Decisions.{insert_decision}
use ribat.Store.World.{World}
use ribat.Store.World.Keeps.{Preorder}
use ribat.Store.World.Gives.{Gives}
use ribat.Store.Observations.{update_observation}
use ribat.Engine.{Engine, Request, Decision, EngineError, decision_record, decision_event}
use ribat.Engine.Decide.Keeps.{Stable}

-- The log behind the event, where the logger has a path.
unfoldable pub logged : Option Text → Event → List Event → List Event
logged none event log = log
logged (some []) event log = log
logged (some (_ ∷ _)) event log = log ++ event ∷ []

-- The world holds the decision that the call has made, behind what `w` holds.
abbrev IsRecorded : Engine → Request → World → Decision → World → Type 0
IsRecorded e req w d w' =
    (w'.db.pull_decisions ≡ insert_decision (decision_record req d e.now) w.db.pull_decisions)
    × (w'.audit_log ≡ logged e.audit (decision_event req d e.now) w.audit_log)

module _ (e : Engine) (req : Request) where
  -- What the caller can tell of the result.
  abbrev Leaves : World → Decision × Option EngineError → World → Type 0
  Leaves w (d, m) w' = m ≡ none → IsRecorded e req w d w'

-- The tables of the decisions and the audit log are as they were.
abbrev quiet : Preorder
quiet = record {
  rel = λ v w. (w.db.pull_decisions ≡ v.db.pull_decisions) × (w.audit_log ≡ v.audit_log);
  same = λ w. (refl, refl);
  after = λ (h, g) (k, l). (k ∙ h, l ∙ g);
  calls = λ w later. (refl, refl);
}

quiet_stable : Stable
unfolding update_observation
quiet_stable = record {
  order = quiet;
  inserts = λ registry repository tag digest now w. (refl, refl);
  touches = λ id ts w. (refl, refl);
  marks = λ id ts w. (refl, refl);
  verifies = λ v w. (refl, refl);
}
