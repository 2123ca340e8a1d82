-- ===== src/Store/World/Keeps.antt =====
-- What an action keeps of the world on every run, whether it returns a value or an error.
use ribat.Base.{
  Bool, true, false, Option, none, some, List, [], ◌∷◌, Text, Result, ok, err, if◌then◌else◌,
}
use ribat.Store.Rows.{Db}
use ribat.Store.World.{World, Act, pure, raise, gets, call, change, continue, outcome, ◌>>=◌}
use ribat.Store.World.Runs.{at}

-- A relation from the world before to the world after that steps can be strung along, and in which
-- the outcome of an external call makes no difference.
pub record Preorder : Type 1 where
  pub rel : World → World → Type 0
  pub same : (w : World) → rel w w
  pub after : {a b c : World} → rel a b → rel b c → rel a c
  pub calls : (w : World) (later : List (Option Text)) → rel w (record w { faults = later })

pub record Keeps (o : Preorder) {E A : Type 0} (m : Act E A) : Type 0 where
  pub kept : (w : World) → o.rel w (m w).1

module _ (o : Preorder) {E A : Type 0} where
  pub Keeps-pure : (a : A) → Keeps o {E = E} {A = A} (pure a)
  unfolding pure
  Keeps-pure a = record { kept = λ w. o.same w }

  pub Keeps-raise : (e : E) → Keeps o {E = E} {A = A} (raise e)
  unfolding raise
  Keeps-raise e = record { kept = λ w. o.same w }

  pub Keeps-gets : (f : World → A) → Keeps o {E = E} {A = A} (gets f)
  unfolding gets
  Keeps-gets f = record { kept = λ w. o.same w }

  pub Keeps-if : (b : Bool) (m k : Act E A) → Keeps o m → Keeps o k → Keeps o (if b then m else k)
  Keeps-if true m k h g = h
  Keeps-if false m k h g = g

module _ (o : Preorder) where
  outcome-Keeps :
      (t : Text) (faults : List (Option Text)) (w : World) → o.rel w (outcome t faults w).1
  unfolding outcome
  outcome-Keeps t [] w = o.same w
  outcome-Keeps t (none ∷ later) w = o.calls w later
  outcome-Keeps t (some e ∷ later) w = o.calls w later

  pub Keeps-call : (t : Text) → Keeps o (call t)
  unfolding call
  Keeps-call t = record { kept = λ w. outcome-Keeps t w.faults w }

  pub Keeps-change : (f : Db → Db) → ((w : World) → o.rel w (at (f w.db) w)) → Keeps o (change f)
  unfolding change
  Keeps-change f h = record { kept = λ w. h w }

module _ (o : Preorder) {E A B : Type 0} where
  continue-Keeps :
      (r : Result E A) (k : A → Act E B) {v : World} (w : World)
      → o.rel v w
      → ((a : A) → Keeps o (k a))
      → o.rel v (continue r k w).1
  unfolding continue
  continue-Keeps (ok a) k w h next = o.after h ((next a).kept w)
  continue-Keeps (err e) k w h next = h

  pub Keeps-bind :
      (m : Act E A) (k : A → Act E B) → Keeps o m → ((a : A) → Keeps o (k a)) → Keeps o (m >>= k)
  unfolding ◌>>=◌
  Keeps-bind m k h next = record { kept = λ w. continue-Keeps (m w).0 k (m w).1 (h.kept w) next }

-- A query keeps everything.
pub Keeps-query :
    (o : Preorder) {A : Type 0} (t : Text) (f : World → A) → Keeps o (call t >>= λ _. gets f)
Keeps-query o t f = Keeps-bind o _ _ (Keeps-call o t) λ _. Keeps-gets o f
