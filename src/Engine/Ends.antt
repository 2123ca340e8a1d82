-- ===== src/Engine/Ends.antt =====
-- How a part of `Decide` ends: as the specification says, or with a refusal or an error, and then
-- an external call has failed.
use ribat.Base.{[], Text, Result, ok, err, ◌≡◌, ◌≢◌, subst}
use ribat.Store.Rows.{Db}
use ribat.Store.World.{World, Act, pure, continue, ◌>>=◌}
use ribat.Store.World.Runs.{Runs, returns, at, at-eq}
use ribat.Engine.{EngineError, lift, lifted, try, caught}

pub data Ends {A : Type 0} (P : A → World → Type 0) (Q : A → Type 0) (w : World)
    : Result EngineError A × World → Type 0 where
  ends : {a : A} {w' : World} → P a w' → (w.faults ≡ [] → w'.faults ≡ []) → Ends P Q w (ok a, w')
  refuses : {a : A} {w' : World} → Q a → w.faults ≢ [] → Ends P Q w (ok a, w')
  fails : {e : EngineError} {w' : World} → w.faults ≢ [] → Ends P Q w (err e, w')

abbrev pub Refused : {A : Type 0} → (A → Type 0) → Result EngineError A × World → Type 0
Refused Q (ok a, w) = Q a
Refused Q (err e, w) = Unit

module _ {A : Type 0} {P : A → World → Type 0} {Q : A → Type 0} where
  pub Ends-pure : (a : A) (w : World) → P a w → Ends P Q w (pure a w)
  unfolding pure
  Ends-pure a w p = ends p (λ e. e)

  Ends-weaken :
      {w w' : World} {r : Result EngineError A × World}
      → (w.faults ≡ [] → w'.faults ≡ [])
      → Ends P Q w' r
      → Ends P Q w r
  Ends-weaken clear (ends p c) = ends p (λ h. c (clear h))
  Ends-weaken clear (refuses q h) = refuses q (λ e. h (clear e))
  Ends-weaken clear (fails h) = fails (λ e. h (clear e))

  Ends-Refused :
      {w : World} → w.faults ≢ [] → (r : Result EngineError A × World) → Refused Q r → Ends P Q w r
  Ends-Refused h (ok a, w) q = refuses q h
  Ends-Refused h (err e, w) q = fails h

module _ {A B : Type 0} {P : B → World → Type 0} {Q : B → Type 0} where
  lift-continue :
      {w : World} {a : A} {db : Db} {r : Result Text A × World} (k : A → Act EngineError B)
      → Runs w a db r
      → ((w' : World) → Ends P Q (at db w') (k a (at db w')))
      → Ends P Q w (continue (lifted r).0 k (lifted r).1)
  unfolding continue lifted
  lift-continue {a = a} k (returns {w'} same clear) next =
      Ends-weaken clear (subst (λ v. Ends P Q v (k a v)) (at-eq w' same) (next w'))
  lift-continue k (Runs.fails h) next = fails h

  -- `v, err := m; if err != nil { return err }`, and then the rest.
  pub Ends-lift :
      (m : Act Text A) (k : A → Act EngineError B) (w : World) {a : A} {db : Db}
      → Runs w a db (m w)
      → ((w' : World) → Ends P Q (at db w') (k a (at db w')))
      → Ends P Q w ((lift m >>= k) w)
  unfolding lift ◌>>=◌
  Ends-lift m k w h next = lift-continue k h next

  try-continue :
      {w : World} {a : A} {db : Db} {r : Result Text A × World}
      (k : Result Text A → Act EngineError B)
      → Runs w a db r
      → ((w' : World) → Ends P Q (at db w') (k (ok a) (at db w')))
      → ((e : Text) (w' : World) → Refused Q (k (err e) w'))
      → Ends P Q w (continue (caught r).0 k (caught r).1)
  unfolding continue caught
  try-continue {a = a} k (returns {w'} same clear) next refused =
      Ends-weaken clear (subst (λ v. Ends P Q v (k (ok a) v)) (at-eq w' same) (next w'))
  try-continue k (Runs.fails {e} {w'} h) next refused = Ends-Refused h _ (refused e w')

  -- The same, where the rest looks at the error.
  pub Ends-try :
      (m : Act Text A) (k : Result Text A → Act EngineError B) (w : World) {a : A} {db : Db}
      → Runs w a db (m w)
      → ((w' : World) → Ends P Q (at db w') (k (ok a) (at db w')))
      → ((e : Text) (w' : World) → Refused Q (k (err e) w'))
      → Ends P Q w ((try m >>= k) w)
  unfolding try ◌>>=◌
  Ends-try m k w h next refused = try-continue k h next refused

module _ {A B : Type 0} {P : A → World → Type 0} {Q : A → Type 0} {P' : B → World → Type 0}
    {Q' : B → Type 0} where
  bind-continue :
      {w : World} {r : Result EngineError A × World} (k : A → Act EngineError B)
      → Ends P Q w r
      → ((a : A) (w' : World) → P a w' → Ends P' Q' w' (k a w'))
      → ((a : A) (w' : World) → Q a → Refused Q' (k a w'))
      → Ends P' Q' w (continue r.0 k r.1)
  unfolding continue
  bind-continue k (ends {a} {w'} p clear) next refused = Ends-weaken clear (next a w' p)
  bind-continue k (refuses {a} {w'} q h) next refused = Ends-Refused h _ (refused a w' q)
  bind-continue k (fails h) next refused = fails h

  pub Ends-bind :
      (m : Act EngineError A) (k : A → Act EngineError B) (w : World)
      → Ends P Q w (m w)
      → ((a : A) (w' : World) → P a w' → Ends P' Q' w' (k a w'))
      → ((a : A) (w' : World) → Q a → Refused Q' (k a w'))
      → Ends P' Q' w ((m >>= k) w)
  unfolding ◌>>=◌
  Ends-bind m k w h next refused = bind-continue k h next refused
