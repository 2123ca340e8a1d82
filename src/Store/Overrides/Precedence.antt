-- ===== src/Store/Overrides/Precedence.antt =====
-- How `LocalOverride` runs, and what it answers.
use ribat.Base.{Option, none, Text, codes, ◌≡◌, ◌||◌, text_eq, arith, is_some}
use ribat.Time.{Time}
use ribat.Store.Rows.{Db, Freeze, Approval, Bypass, decision_allow, decision_deny}
use ribat.Store.World.{World}
use ribat.Store.World.Runs.{Runs, Runs-pure, Runs-bind, Runs-query, at}
use ribat.Store.Overrides.{
  find_freeze, find_approval, find_bypass, active_freeze, active_approval, active_bypass,
  make_override, local_override, LocalOverride,
}

module _ (registry repository tag digest : Text) (now : Time) where
  -- The override that the tables hold.
  unfoldable pub find_override : Db → LocalOverride
  find_override db =
      make_override (find_freeze registry repository tag digest now db)
        (find_approval registry repository tag digest now db)
        (find_bypass registry repository tag now db)

  pub local_override-Runs :
      (w : World)
      → Runs w (find_override w.db) w.db (local_override registry repository tag digest now w)
  unfolding local_override active_freeze active_approval active_bypass find_override
  local_override-Runs w =
      Runs-bind _ _ w (Runs-query _ (find_freeze registry repository tag digest now) w) λ w1.
        Runs-bind _ _ (at w.db w1)
          (Runs-query _ (find_approval registry repository tag digest now) (at w.db w1))
          λ w2.
            Runs-bind _ _ (at w.db w2)
              (Runs-query _ (find_bypass registry repository tag now) (at w.db w2))
              λ w3. Runs-pure _ (at w.db w3)

-- The decision is deny exactly when there is a freeze.
pub deny_iff :
    (f : Option Freeze) (a : Option Approval) (b : Option Bypass)
    → text_eq (make_override f a b).decision decision_deny ≡ is_some f
unfolding make_override codes text_eq
deny_iff f a b = ground arith

-- With no freeze it is allow exactly when there is an approval or a bypass.
pub allow_iff :
    (a : Option Approval) (b : Option Bypass)
    → text_eq (make_override none a b).decision decision_allow ≡ (is_some a || is_some b)
unfolding make_override codes text_eq
allow_iff a b = ground arith
