-- ===== src/Commands/Gives.antt =====
-- What is known once a step of a command has succeeded.
use ribat.Base.{
  Bool, true, false, Text, codes, text_eq, Result, ok, err, if◌then◌else◌, is_empty, ◌≡◌, ◌≢◌, refl,
  arith, Bool-cases, inl, inr,
}
use ribat.Policy.{Config}
use ribat.Store.Rows.{Db, empty_db}
use ribat.Store.World.{World, Act, call, pure, raise, ◌>>=◌}
use ribat.Store.World.Gives.{Gives, Gives-bind, Unchanged, call-Gives}
use ribat.Commands.{
  Machine, Problem, Outcome, worded, of_result, on_error, with_state, forget, conclude, concluded,
  failure, exit_code,
}
use ribat.Commands.Configured.{checked_config}
use ribat.Commands.State.{open_sqlite, open_configured_state}

module _ {E F A : Type 0} where
  pub of_result-Gives :
      (f : E → F) (r : Result E A) (w : World)
      → Gives (λ a v. (r ≡ ok a) × (v ≡ w)) (of_result f r w)
  unfolding of_result
  of_result-Gives f (ok a) w = (refl, refl)
  of_result-Gives f (err e) w = tt

  worded-Gives :
      (f : E → F) (P : A → World → Type 0) (r : Result E A) (w : World)
      → Gives P (r, w)
      → Gives P (worded f r, w)
  worded-Gives f P (ok a) w h = h
  worded-Gives f P (err e) w h = tt

  pub on_error-Gives :
      (f : E → F) (P : A → World → Type 0) (m : Act E A) (w : World)
      → Gives P (m w)
      → Gives P (on_error f m w)
  unfolding on_error
  on_error-Gives f P m w h = worded-Gives f P (m w).0 (m w).1 h

module _ {A : Type 0} (E : Type 0) where
  pub pure-Gives : (P : A → World → Type 0) (a : A) (w : World) → P a w → Gives P (pure {E = E} a w)
  unfolding pure
  pure-Gives P a w h = h

module _ {E A : Type 0} where
  pub raise-Gives :
      (P : A → World → Type 0) (e : E) (w : World) → Gives P (raise {E = E} {A = A} e w)
  unfolding raise
  raise-Gives P e w = tt

  pub Gives-weaken :
      (P Q : A → World → Type 0) (r : Result E A × World)
      → ((a : A) (v : World) → P a v → Q a v)
      → Gives P r
      → Gives Q r
  Gives-weaken P Q (ok a, w) h g = h a w g
  Gives-weaken P Q (err e, w) h g = tt

  pub Gives-if :
      (P : A → World → Type 0) (b : Bool) (m k : Act E A) (w : World)
      → Gives P (m w)
      → Gives P (k w)
      → Gives P ((if b then m else k) w)
  Gives-if P true m k w h g = h
  Gives-if P false m k w h g = g

-- The state is open, and nothing in it has changed.
SameTables : (w : World) → Unit {0} → World → Type 0
SameTables w x v = v.db ≡ w.db

module _ (w : World) where
  -- A call among steps that leave the tables.
  call-still : (t : Text) (v : World) → v.db ≡ w.db → Gives (SameTables w) (call t v)
  unfolding SameTables
  call-still t v same =
      Gives-weaken (Unchanged v) (SameTables w) (call t v) (λ x u (kept, log). cc) (call-Gives t v)

  then_call :
      (m : Act Text (Unit {0})) (t : Text) (v : World)
      → Gives (SameTables w) (m v)
      → Gives (SameTables w) ((m >>= λ _. call t) v)
  unfolding SameTables
  then_call m t v h =
      Gives-bind (SameTables w) (SameTables w) m _ v h λ x u same. call-still t u same

open_sqlite-Gives : (path : Text) (w : World) → Gives (SameTables w) (open_sqlite path w)
unfolding open_sqlite SameTables
open_sqlite-Gives path w = Gives-if (SameTables w) (is_empty path) _ _ w (raise-Gives _ _ w) (
    Gives-bind (SameTables w) (SameTables w) _ _ w
      (Gives-if (SameTables w) (text_eq path (codes ":memory:")) _ _ w
        (pure-Gives Text (SameTables w) tt w refl) (call-still w _ w refl))
      λ x v same.
        Gives-bind (SameTables w) (SameTables w) _ _ v (call-still w _ v same)
          λ y u still. call-still w _ u still)

-- A configuration has been found, and the tables are as before.
abbrev pub Opened : Machine → Text → Text → World → Config → World → Type 0
Opened m path command w cfg v = (checked_config m path command ≡ ok cfg) × (v.db ≡ w.db)

pub open_configured_state-Gives :
    (m : Machine) (path command : Text) (w : World)
    → Gives (Opened m path command w) (open_configured_state m path command w)
unfolding open_configured_state SameTables
open_configured_state-Gives m path command w =
    Gives-bind (λ cfg v. (checked_config m path command ≡ ok cfg) × (v ≡ w)) _ _ _ w
      (of_result-Gives _ _ w)
      λ cfg v (loads, same).
        Gives-bind (SameTables v) _ _ _ v
          (on_error-Gives _ (SameTables v) _ v (open_sqlite-Gives cfg.state.path v))
          λ x u kept. pure-Gives Problem (Opened m path command w) cfg u (loads, cc)

-- The tables that a run sees between `OpenSQLite` and `Close`.
unfoldable pub opened_tables : Config → Db → Db
opened_tables cfg db = if text_eq cfg.state.path (codes ":memory:") then empty_db else db

exit_code-nonzero : (p : Problem) → exit_code p ≢ 0
unfolding exit_code
exit_code-nonzero p h = ground arith

concluded-Gives :
    (P : World → Type 0) (r : Result Problem Outcome × World)
    → Gives (λ o v. o.code ≡ 0 → P v) r
    → (concluded r).0.code ≡ 0
    → P (concluded r).1
unfolding concluded failure
concluded-Gives P (ok o, v) g c = g c
concluded-Gives P (err p, v) g c = absurd (exit_code-nonzero p c)

-- With code 0 a run has come to a value.
pub conclude-Gives :
    (P : World → Type 0) (run : Act Problem Outcome) (w : World)
    → Gives (λ o v. o.code ≡ 0 → P v) (run w)
    → (conclude run w).0.code ≡ 0
    → P (conclude run w).1
unfolding conclude
conclude-Gives P run w h = concluded-Gives P (run w) h

module _ {A : Type 0} (run : Act Problem A) (w : World) where
  forget-Gives :
      (P : A → Type 0) (db : Db) (r : Result Problem A × World)
      → Gives (λ a v. P a) r
      → Gives (λ a v. P a) (forget db r)
  unfolding forget
  forget-Gives P db (ok a, v) h = h
  forget-Gives P db (err p, v) h = tt

  -- What is known of the value, whatever becomes of the tables.
  pub with_state-Gives :
      (P : A → Type 0) (cfg : Config)
      → ((v : World) → v.db ≡ opened_tables cfg w.db → Gives (λ a u. P a) (run v))
      → Gives (λ a v. P a) (with_state cfg.state.path run w)
  unfolding with_state opened_tables
  with_state-Gives P cfg h = elim (Bool-cases (text_eq cfg.state.path (codes ":memory:"))) [
    | inl e ↦ rw e (forget-Gives P w.db _ (h (record w { db = empty_db }) (rw e refl)))
    | inr e ↦ rw e (h w (rw e refl))
  ]

  -- A state file keeps the tables.
  pub with_file-Gives :
      (P : A → World → Type 0) (cfg : Config)
      → (text_eq cfg.state.path (codes ":memory:") ≡ false → Gives P (run w))
      → text_eq cfg.state.path (codes ":memory:") ≡ false
      → Gives P (with_state cfg.state.path run w)
  unfolding with_state
  with_file-Gives P cfg h e = rw e (h e)
