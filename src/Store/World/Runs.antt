-- ===== src/Store/World/Runs.antt =====
-- How an action ends: with its value and the tables that it means to leave, or with an error that
-- some external call gave.
use ribat.Base.{
  List, [], ◌∷◌, Option, none, some, Text, Result, ok, err, ◌≡◌, ◌≢◌, refl, sym, subst,
}
use ribat.Store.Rows.{Db}
use ribat.Store.World.{World, Act, outcome, call, change, pure, gets, continue, ◌>>=◌}

-- `Runs w a db r`: the run `r` from `w` gives `a` and the tables `db`, unless a call failed.
pub data Runs {A : Type 0} (w : World) (a : A) (db : Db) : Result Text A × World → Type 0 where
  returns : {w' : World} → w'.db ≡ db → (w.faults ≡ [] → w'.faults ≡ []) → Runs w a db (ok a, w')
  fails : {e : Text} {w' : World} → w.faults ≢ [] → Runs w a db (err e, w')

module _ {A : Type 0} where
  pub Runs-pure : (a : A) (w : World) → Runs w a w.db (pure a w)
  unfolding pure
  Runs-pure a w = returns refl (λ e. e)

  pub Runs-gets : (f : World → A) (w : World) → Runs w (f w) w.db (gets f w)
  unfolding gets
  Runs-gets f w = returns refl (λ e. e)

outcome-Runs :
    (t : Text) (faults : List (Option Text)) (w : World)
    → w.faults ≡ faults
    → Runs w (tt {0}) w.db (outcome t faults w)
unfolding outcome
outcome-Runs t [] w e = returns refl (λ h. h)
outcome-Runs t (none ∷ later) w e = returns refl (λ h. cc)
outcome-Runs t (some m ∷ later) w e = fails (λ h. cc)

pub Runs-call : (t : Text) (w : World) → Runs w (tt {0}) w.db (call t w)
unfolding call
Runs-call t w = outcome-Runs t w.faults w refl

pub Runs-change : (f : Db → Db) (w : World) → Runs w (tt {0}) (f w.db) (change f w)
unfolding change
Runs-change f w = returns refl (λ e. e)

-- The world with given tables: what an earlier step has left.
abbrev pub at : Db → World → World
at db w = record w { db = db }

pub at-eq : {db : Db} (w : World) → w.db ≡ db → at db w ≡ w
at-eq w same = λ i. record w { db = sym same i }

module _ {A B : Type 0} where
  Runs-continue :
      {w : World} {a : A} {b : B} {db db' : Db} {r : Result Text A × World} (k : A → Act Text B)
      → Runs w a db r
      → ((w' : World) → w'.db ≡ db → Runs w' b db' (k a w'))
      → Runs w b db' (continue r.0 k r.1)
  unfolding continue
  Runs-continue k (returns {w'} same clear) next = weaken clear (next w' same)
    where
      weaken :
          {w w' : World} {b : B} {db : Db} {r : Result Text B × World}
          → (w.faults ≡ [] → w'.faults ≡ [])
          → Runs w' b db r
          → Runs w b db r
      weaken clear (returns s c) = returns s (λ h. c (clear h))
      weaken clear (fails h) = fails (λ e. h (clear e))
  Runs-continue k (fails h) next = fails h

  -- The second action is looked at in any world with the tables that the first one leaves.
  pub Runs-bind :
      (m : Act Text A) (k : A → Act Text B) (w : World) {a : A} {b : B} {db db' : Db}
      → Runs w a db (m w)
      → ((w' : World) → Runs (at db w') b db' (k a (at db w')))
      → Runs w b db' ((m >>= k) w)
  unfolding ◌>>=◌
  Runs-bind m k w {a} {b} {db} {db'} h next =
      Runs-continue k h λ w' same. subst (λ v. Runs v b db' (k a v)) (at-eq w' same) (next w')

-- One external call, and then the rest.
pub Runs-then :
    {B : Type 0} (t : Text) (k : Unit {0} → Act Text B) (w : World) {b : B} {db : Db}
    → ((w' : World) → Runs (at w.db w') b db (k tt (at w.db w')))
    → Runs w b db ((call t >>= k) w)
Runs-then t k w next = Runs-bind (call t) k w (Runs-call t w) next

-- A query gives what it finds and leaves the tables.
pub Runs-query :
    {A : Type 0} (t : Text) (f : Db → A) (w : World)
    → Runs w (f w.db) w.db ((call t >>= λ _. gets (λ v. f v.db)) w)
Runs-query t f w = Runs-then t _ w λ w'. Runs-gets (λ v. f v.db) (at w.db w')

-- A statement changes the tables.
pub Runs-statement :
    (t : Text) (f : Db → Db) (w : World) → Runs w (tt {0}) (f w.db) ((call t >>= λ _. change f) w)
Runs-statement t f w = Runs-then t _ w λ w'. Runs-change f (at w.db w')
