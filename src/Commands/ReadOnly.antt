-- ===== src/Commands/ReadOnly.antt =====
-- The commands that write nothing.
use ribat.Base.{List, Text, ◌≡◌, refl, ◌∙◌}
use ribat.Store.World.{World}
use ribat.Store.World.Keeps.{Preorder}
use ribat.Commands.{Machine}
use ribat.Commands.Queries.{run_inspect, run_policy_check, run_status}
use ribat.Commands.AuditLog.{run_audit}
use ribat.Commands.Keeps.{Enclosing, Keeps-conclude}
use ribat.Commands.Keeps.Queries.{Keeps-inspect, Keeps-policy_check, Keeps-status, Keeps-audit}

-- The tables and the audit log are the same.
pub record SameContents (v w : World) : Type 0 where
  pub tables : w.db ≡ v.db
  pub log : w.audit_log ≡ v.audit_log

reading : Preorder
reading = record {
  rel = SameContents;
  same = λ w. record { tables = refl; log = refl };
  after = λ g h. record { tables = h.tables ∙ g.tables; log = h.log ∙ g.log };
  calls = λ w later. record { tables = refl; log = refl };
}

reading_encloses : Enclosing reading
unfolding reading
reading_encloses = record { forgets = λ w v h. record { tables = refl; log = h.log } }

-- `ribat inspect`, `policy check`, `status` and `audit` leave the tables and the audit log as they
-- are, whatever external calls fail.
pub queries-SameContents :
    (m : Machine) (args : List Text) (w : World)
    → SameContents w (run_inspect m args w).1
      × SameContents w (run_policy_check m args w).1
      × SameContents w (run_status m args w).1
      × SameContents w (run_audit m args w).1
unfolding reading run_inspect run_policy_check run_status run_audit
queries-SameContents m args w = (
  Keeps-conclude reading _ (Keeps-inspect reading m args) w,
  Keeps-conclude reading _ (Keeps-policy_check reading m args) w,
  Keeps-conclude reading _ (Keeps-status reading reading_encloses m args) w,
  Keeps-conclude reading _ (Keeps-audit reading m args) w,
)
