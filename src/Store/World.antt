-- ===== src/Store/World.antt =====
-- What the program changes: the tables, the audit log, and the outcomes of the external calls to
-- come. A statement that fails leaves the tables as they were, as SQLite does.
pub mod Runs
pub mod Keeps
pub mod Gives
pub mod Called
use ribat.Base.{List, [], ◌∷◌, ◌++◌, Option, none, some, Text, Result, ok, err}
use ribat.Audit.{Event}
use ribat.Store.Rows.{Db}

-- `faults` tells, call by call, whether the next statement or write fails and with what error;
-- past its end every call succeeds.
pub record World : Type 0 where
  pub db : Db
  pub audit_log : List Event
  pub faults : List (Option Text)

-- A method that may change the world and may return an error; what it wrote before stays written.
abbrev pub Act : Type 0 → Type 0 → Type 0
Act E A = World → Result E A × World

module _ {E A : Type 0} where
  unfoldable pub pure : A → Act E A
  pure a w = (ok a, w)

  unfoldable pub raise : E → Act E A
  raise e w = (err e, w)

  unfoldable pub gets : (World → A) → Act E A
  gets f w = (ok (f w), w)

module _ {E A B : Type 0} where
  unfoldable pub continue : Result E A → (A → Act E B) → Act E B
  continue (ok a) f w = f a w
  continue (err e) f w = (err e, w)

  infixl 10 ◌>>=◌ ◌>>◌
  unfoldable pub ◌>>=◌ : Act E A → (A → Act E B) → Act E B
  unfolding pure raise gets continue
  ◌>>=◌ m f w = let (r, w') = m w in continue r f w'

  abbrev pub ◌>>◌ : Act E A → Act E B → Act E B
  m >> k = m >>= λ _. k

-- One external call; `operation` stands in front of its error, as `fmt.Errorf("…: %w", err)` puts it.
outcome : Text → List (Option Text) → World → Result Text (Unit {0}) × World
outcome operation [] w = (ok tt, w)
outcome operation (none ∷ later) w = (ok tt, record w { faults = later })
outcome operation (some e ∷ later) w = (err (operation ++ e), record w { faults = later })

unfoldable pub call : Text → Act Text (Unit {0})
unfolding outcome
call operation w = outcome operation w.faults w

unfoldable pub change : (Db → Db) → Act Text (Unit {0})
change f w = (ok tt, record w { db = f w.db })
