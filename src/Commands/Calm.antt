-- ===== src/Commands/Calm.antt =====
-- Runs in which no external call fails.
use ribat.Base.{
  Bool, true, false, [], Text, codes, text_eq, Result, ok, err, if◌then◌else◌, is_empty, ◌≡◌, refl,
  sym, ◌∙◌, ap, subst,
}
use ribat.Audit.Logger.{record_event-Runs}
use ribat.Image.{Reference}
use ribat.Time.{Time}
use ribat.Policy.{Config}
use ribat.Store.Rows.{Db}
use ribat.Store.World.{World, Act, call, pure, continue, ◌>>=◌}
use ribat.Store.World.Runs.{Runs, returns, fails, Runs-call, Runs-bind, Runs-pure, Runs-then, at}
use ribat.Commands.{
  Machine, Problem, Outcome, worded, of_result, on_error, with_state, conclude, concluded,
}
use ribat.Commands.Configured.{checked_config}
use ribat.Commands.State.{open_sqlite, open_configured_state, log_operation}

-- The run gives `a` and leaves the tables `db`, and the calls to come do not fail either.
pub record Calm {E A : Type 0} (a : A) (db : Db) (r : Result E A × World) : Type 0 where
  pub gives : r.0 ≡ ok a
  pub leaves : r.1.db ≡ db
  pub calm : r.1.faults ≡ []

pub Runs-Calm :
    {A : Type 0} {w : World} {a : A} {db : Db} {r : Result Text A × World}
    → Runs w a db r
    → w.faults ≡ []
    → Calm a db r
Runs-Calm (returns same clear) calm = record { gives = refl; leaves = same; calm = clear calm }
Runs-Calm (fails broken) calm = absurd (broken calm)

module _ {E A : Type 0} where
  pub Calm-pure :
      (a : A) (w : World) {db : Db} → w.db ≡ db → w.faults ≡ [] → Calm {E = E} a db (pure a w)
  unfolding pure
  Calm-pure a w same calm = record { gives = refl; leaves = same; calm = calm }

  pub Calm-as :
      {a b : A} {db db' : Db} {r : Result E A × World}
      → a ≡ b
      → db ≡ db'
      → Calm a db r
      → Calm b db' r
  Calm-as same kept c = record {
    gives = c.gives ∙ ap ok same;
    leaves = c.leaves ∙ kept;
    calm = c.calm;
  }

module _ {E F A : Type 0} (f : E → F) where
  pub Calm-of_result :
      (r : Result E A) (a : A) (w : World)
      → r ≡ ok a
      → w.faults ≡ []
      → Calm a w.db (of_result f r w)
  unfolding of_result
  Calm-of_result r a w known calm = record {
    gives = ap (worded f) known;
    leaves = refl;
    calm = calm;
  }

  pub Calm-on_error :
      (m : Act E A) (w : World) {a : A} {db : Db} → Calm a db (m w) → Calm a db (on_error f m w)
  unfolding on_error
  Calm-on_error m w h = record { gives = ap (worded f) h.gives; leaves = h.leaves; calm = h.calm }

module _ {E A B : Type 0} (m : Act E A) (k : A → Act E B) (w : World) where
  -- The second step, in the world that the first one leaves.
  pub Calm-after :
      {a : A} {b : B} {db db' : Db}
      → Calm a db (m w)
      → Calm b db' (k a (m w).1)
      → Calm b db' ((m >>= k) w)
  unfolding ◌>>=◌ continue
  Calm-after {a} {b} {db} {db'} h next =
      subst (λ r. Calm b db' (continue r k (m w).1)) (sym h.gives) next

  pub Calm-bind :
      {a : A} {b : B} {db db' : Db}
      → Calm a db (m w)
      → ((v : World) → v.db ≡ db → v.faults ≡ [] → Calm b db' (k a v))
      → Calm b db' ((m >>= k) w)
  Calm-bind h next = Calm-after h (next (m w).1 h.leaves h.calm)

open_sqlite-Runs :
    (path : Text) (w : World) → is_empty path ≡ false → Runs w (tt {0}) w.db (open_sqlite path w)
unfolding open_sqlite
open_sqlite-Runs path w filled = rw filled (
    Runs-bind _ _ w (directory (text_eq path (codes ":memory:")) w)
      λ w1. Runs-then _ _ (at w.db w1) λ w2. Runs-call _ (at w.db w2))
  where
    directory :
        (memory : Bool) (w : World)
        → Runs w
            (tt {0})
            w.db
            ((if memory then pure tt else call (codes "create sqlite state directory: ")) w)
    directory true w = Runs-pure tt w
    directory false w = Runs-call _ w

-- A configuration whose state can be opened.
pub record Usable (m : Machine) (path command : Text) (cfg : Config) : Type 0 where
  pub loads : checked_config m path command ≡ ok cfg
  pub has_path : is_empty cfg.state.path ≡ false
  pub on_file : text_eq cfg.state.path (codes ":memory:") ≡ false

pub Calm-open_configured_state :
    (m : Machine) (path command : Text) (cfg : Config) (w : World)
    → Usable m path command cfg
    → w.faults ≡ []
    → Calm cfg w.db (open_configured_state m path command w)
unfolding open_configured_state
Calm-open_configured_state m path command cfg w u calm =
    Calm-bind _ _ w (Calm-of_result _ _ cfg w u.loads calm) λ v same calm'.
      Calm-bind _ _ v
        (Calm-on_error _ _ v (Runs-Calm (open_sqlite-Runs cfg.state.path v u.has_path) calm'))
        λ x kept calm''. Calm-pure cfg x (kept ∙ same) calm''

pub Calm-log_operation :
    (cfg : Config) (operation : Text) (ref : Reference) (digest actor reason : Text) (now : Time)
    (w : World)
    → w.faults ≡ []
    → Calm (tt {0}) w.db (log_operation cfg operation ref digest actor reason now w)
unfolding log_operation
Calm-log_operation cfg operation ref digest actor reason now w calm =
    Calm-on_error _ _ w (Runs-Calm (record_event-Runs cfg.audit.path _ w) calm)

pub Calm-with_state :
    {A : Type 0} (run : Act Problem A) (cfg : Config) (w : World) {a : A} {db : Db}
    → text_eq cfg.state.path (codes ":memory:") ≡ false
    → Calm a db (run w)
    → Calm a db (with_state cfg.state.path run w)
unfolding with_state
Calm-with_state run cfg w on_file h = rw on_file h

concluded-Calm :
    (o : Outcome) (db : Db) (r : Result Problem Outcome × World)
    → Calm o db r
    → ((concluded r).0 ≡ o) × ((concluded r).1.db ≡ db)
unfolding concluded
concluded-Calm o db (ok x, w) h = (cc h.gives, h.leaves)
concluded-Calm o db (err p, w) h = cc h.gives

pub Calm-conclude :
    (run : Act Problem Outcome) (w : World) {o : Outcome} {db : Db}
    → Calm o db (run w)
    → ((conclude run w).0 ≡ o) × ((conclude run w).1.db ≡ db)
unfolding conclude
Calm-conclude run w {o} {db} h = concluded-Calm o db (run w) h
