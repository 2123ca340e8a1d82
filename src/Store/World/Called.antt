-- ===== src/Store/World/Called.antt =====
-- What a call leaves: the tables as they are, whether it fails or not.
use ribat.Base.{List, [], ◌∷◌, ◌++◌, Option, none, some, Text, Result, ok, err, ◌≡◌, refl}
use ribat.Store.Rows.{Db}
use ribat.Store.World.{World, call, outcome}

-- The ends of a call.
pub data Called (operation : Text) (db : Db) : Result Text (Unit {0}) × World → Type 0 where
  passed : {w : World} → w.db ≡ db → Called operation db (ok tt, w)
  broken : (m : Text) {w : World} → w.db ≡ db → Called operation db (err (operation ++ m), w)

outcome-Called :
    (operation : Text) (faults : List (Option Text)) (w : World)
    → Called operation w.db (outcome operation faults w)
unfolding outcome
outcome-Called operation [] w = passed refl
outcome-Called operation (none ∷ later) w = passed refl
outcome-Called operation (some e ∷ later) w = broken e refl

pub call-Called : (operation : Text) (w : World) → Called operation w.db (call operation w)
unfolding call
call-Called operation w = outcome-Called operation w.faults w
