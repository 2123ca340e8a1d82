-- ===== src/Commands/WellFormed.antt =====
-- The tables from one start of the binary to the next.
use ribat.Base.{List, [], ◌∷◌, Text}
use ribat.Store.World.{World}
use ribat.Store.Invariant.{IsWellFormed}
use ribat.Store.Invariant.Keeps.{approve-IsWellFormed, freeze-IsWellFormed, bypass-IsWellFormed}
use ribat.Store.Export.Lawful.{import_state-Keeps}
use ribat.Engine.Decide.WellFormed.{lawful_lasts}
use ribat.Commands.{Machine}
use ribat.Commands.Run.{Setting, run}
use ribat.Commands.Keeps.Grants.{Enduring}
use ribat.Commands.Keeps.Run.{run-Keeps}

-- One start of the binary: what it meets, and its arguments.
pub record Start : Type 0 where
  pub machine : Machine
  pub setting : Setting
  pub args : List Text

-- The world after the binary has been started again and again.
unfoldable pub run_all : List Start → World → World
run_all [] w = w
run_all (s ∷ starts) w = run_all starts (run s.machine s.setting s.args w).1

lawful_endures : Enduring
unfolding lawful_lasts
lawful_endures = record {
  lasting = lawful_lasts;
  enclosing = record { forgets = λ w v h good. good };
  approves = λ g digest w good. approve-IsWellFormed w.db good g digest;
  freezes = λ g digest w good. freeze-IsWellFormed w.db good g digest;
  bypasses = λ g w good. bypass-IsWellFormed w.db good g;
  imports = import_state-Keeps;
}

-- However often the binary is started, with any arguments, files, requests and failures, well-
-- formed tables stay well-formed.
pub run_all-IsWellFormed :
    (starts : List Start) (w : World) → IsWellFormed w.db → IsWellFormed (run_all starts w).db
unfolding run_all lawful_endures lawful_lasts
run_all-IsWellFormed [] w h = h
run_all-IsWellFormed (s ∷ starts) w h =
    run_all-IsWellFormed starts (run s.machine s.setting s.args w).1
      (run-Keeps lawful_endures s.machine s.setting s.args w h)
