-- ===== src/Store/World/Gives.antt =====
-- Properties of the value that an action gives and the world that it leaves, if it gives one.
use ribat.Base.{Option, none, some, List, [], ◌∷◌, Text, Result, ok, err, ◌≡◌, refl}
use ribat.Store.World.{World, Act, continue, outcome, call, ◌>>=◌}

abbrev pub Gives : {E A : Type 0} → (A → World → Type 0) → Result E A × World → Type 0
Gives P (ok a, w) = P a w
Gives P (err e, w) = Unit

module _ {E A B : Type 0} (P : A → World → Type 0) (Q : B → World → Type 0) where
  continue-Gives :
      (r : Result E A) (w : World) (k : A → Act E B)
      → Gives P (r, w)
      → ((a : A) (w' : World) → P a w' → Gives Q (k a w'))
      → Gives Q (continue r k w)
  unfolding continue
  continue-Gives (ok a) w k h next = next a w h
  continue-Gives (err e) w k h next = tt

  pub Gives-bind :
      (m : Act E A) (k : A → Act E B) (w : World)
      → Gives P (m w)
      → ((a : A) (w' : World) → P a w' → Gives Q (k a w'))
      → Gives Q ((m >>= k) w)
  unfolding ◌>>=◌
  Gives-bind m k w h next = continue-Gives (m w).0 (m w).1 k h next

-- Nothing has changed but the calls that are still to come.
abbrev pub Unchanged : World → Unit {0} → World → Type 0
Unchanged w x w' = (w'.db ≡ w.db) × (w'.audit_log ≡ w.audit_log)

outcome-Gives :
    (t : Text) (faults : List (Option Text)) (w : World) → Gives (Unchanged w) (outcome t faults w)
unfolding outcome
outcome-Gives t [] w = (refl, refl)
outcome-Gives t (none ∷ later) w = (refl, refl)
outcome-Gives t (some e ∷ later) w = tt

pub call-Gives : (t : Text) (w : World) → Gives (Unchanged w) (call t w)
unfolding call
call-Gives t w = outcome-Gives t w.faults w
