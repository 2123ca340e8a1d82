-- ===== src/Audit/Logger.antt =====
-- `Logger.Record` of internal/audit/logger.go, as one external call and an appended event.
use ribat.Base.{[], ◌∷◌, ◌++◌, Text, codes, ok, refl}
use ribat.Audit.{Event}
use ribat.Store.World.{World, Act, call, ◌>>◌}
use ribat.Store.World.Runs.{Runs, Runs-then, returns}

append_event : Event → Act Text (Unit {0})
append_event event w = (ok tt, record w { audit_log = w.audit_log ++ event ∷ [] })

-- `path` is that of the logger: with no path nothing is written. The directory, the file, the
-- encoding and the write fail or succeed together.
unfoldable pub record_event : Text → Event → Act Text (Unit {0})
unfolding append_event
record_event [] event w = (ok tt, w)
record_event (_ ∷ _) event w = (call (codes "write audit event: ") >> append_event event) w

-- The log is no table.
pub record_event-Runs :
    (path : Text) (event : Event) (w : World) → Runs w (tt {0}) w.db (record_event path event w)
unfolding record_event
record_event-Runs [] event w = returns refl (λ e. e)
record_event-Runs (_ ∷ _) event w = Runs-then _ _ w (λ w'. returns refl (λ e. e))
