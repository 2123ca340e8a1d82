-- ===== src/Base/Results.antt =====
-- Go's pair of a value and an error, as one of the two.
use mathlib.Core.Path.{◌≡◌, refl}
use mathlib.Core.Bool.{Bool, true, false}

pub data Result {ℓ} (E : Type 0) (A : Type ℓ) : Type ℓ where
  ok : A → Result E A
  err : E → Result E A

module _ {E : Type 0} where
  -- `if !passed { return failure }`.
  abbrev pub guard : (passed : Bool) (failure : E) → Result E (Unit {0})
  guard false failure = err failure
  guard true failure = ok tt

  module _ {ℓ κ} {A : Type ℓ} {B : Type κ} where
    infixl 5 ◌>>=◌
    -- `if err != nil { return err }`, and then the rest.
    abbrev pub ◌>>=◌ : (m : Result E A) (rest : A → Result E B) → Result E B
    err failure >>= rest = err failure
    ok value >>= rest = rest value

    pub >>=-eq-ok :
        (m : Result E A) (rest : A → Result E B) {b : B}
        → (m >>= rest) ≡ ok b
        → (a : A) × (m ≡ ok a) × (rest a ≡ ok b)
    >>=-eq-ok (ok a) rest h = (a, refl, h)
    >>=-eq-ok (err failure) rest h = cc

  infixl 5 ◌>>◌
  -- The same, where the value is of no use.
  abbrev pub ◌>>◌ {κ} : {B : Type κ} (check : Result E (Unit {0})) (rest : Result E B) → Result E B
  check >> rest = check >>= (λ done. rest)
