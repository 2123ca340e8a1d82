-- ===== src/Engine/Decide/WellFormed.antt =====
-- The tables from one call to the next, where the calls are `Decide` and the three that grant overrides.
use ribat.Base.{ℕ, List, [], ◌∷◌, Text}
use ribat.Store.Rows.{Db}
use ribat.Store.World.{World, call, change, gets, ◌>>=◌}
use ribat.Store.World.Keeps.{Keeps, Keeps-call, Keeps-change, Keeps-gets, Keeps-bind, Keeps-query}
use ribat.Store.Overrides.Insert.{
  Grant, approve_digest, freeze_tag, bypass_tag, get_approval, get_freeze, get_bypass,
}
use ribat.Store.Invariant.{IsWellFormed}
use ribat.Store.Invariant.Lawful.{lawful}
use ribat.Store.Invariant.Keeps.{
  create-IsWellFormed, touch-IsWellFormed, mark-IsWellFormed, verify-IsWellFormed,
  record-IsWellFormed, approve-IsWellFormed, freeze-IsWellFormed, bypass-IsWellFormed,
}
use ribat.Engine.{Engine, Request}
use ribat.Engine.Decide.{decide}
use ribat.Engine.Decide.Lasts.{Lasting, decide_lasts}

unfoldable pub lawful_lasts : Lasting
lawful_lasts = record {
  stable = record {
    order = lawful;
    inserts = λ registry repository tag digest now w h.
        create-IsWellFormed w.db h registry repository tag digest now;
    touches = λ id ts w h. touch-IsWellFormed w.db h id ts;
    marks = λ id ts w h. mark-IsWellFormed w.db h id ts;
    verifies = λ v w h. verify-IsWellFormed w.db h v;
  };
  records = λ d w h. record-IsWellFormed w.db h d;
  logs = λ event w h. h;
}

pub data Call : Type 0 where
  decides : Engine → Request → Call
  approves : Grant → Text → Call
  freezes : Grant → Text → Call
  bypasses : Grant → Call

abbrev pub run_call : Call → World → World
run_call (decides e req) w = (decide e req w).1
run_call (approves g digest) w = (approve_digest g digest w).1
run_call (freezes g digest) w = (freeze_tag g digest w).1
run_call (bypasses g) w = (bypass_tag g w).1

pub run_calls : List Call → World → World
run_calls [] w = w
run_calls (c ∷ calls) w = run_calls calls (run_call c w)

-- An `INSERT` followed by the query of the row.
insert_and_read-Keeps :
    {A : Type 0} (s t u : Text) (f : Db → Db) (id : World → ℕ) (get : ℕ → World → A)
    → ((w : World) → IsWellFormed w.db → IsWellFormed (f w.db))
    → Keeps lawful (
        call s >>= λ _.
        change f >>= λ _. call t >>= λ _. gets id >>= λ i. call u >>= λ _. gets (get i))
insert_and_read-Keeps s t u f id get h = Keeps-bind lawful _ _ (Keeps-call lawful s) λ _.
    Keeps-bind lawful _ _ (Keeps-change lawful f h) λ _.
      Keeps-bind lawful _ _ (Keeps-call lawful t)
        λ _. Keeps-bind lawful _ _ (Keeps-gets lawful id) λ i. Keeps-query lawful u (get i)

call-IsWellFormed : (c : Call) (w : World) → IsWellFormed w.db → IsWellFormed (run_call c w).db
unfolding lawful_lasts approve_digest freeze_tag bypass_tag get_approval get_freeze get_bypass
call-IsWellFormed (decides e req) w h = decide_lasts lawful_lasts e req w h
call-IsWellFormed (approves g digest) w h =
    (insert_and_read-Keeps _ _ _ _ _ _ λ v k. approve-IsWellFormed v.db k g digest).kept w h
call-IsWellFormed (freezes g digest) w h =
    (insert_and_read-Keeps _ _ _ _ _ _ λ v k. freeze-IsWellFormed v.db k g digest).kept w h
call-IsWellFormed (bypasses g) w h =
    (insert_and_read-Keeps _ _ _ _ _ _ λ v k. bypass-IsWellFormed v.db k g).kept w h

-- If the tables are well-formed (in each table the ids grow and none is larger than the counter, no
-- two rows have one id or break a UNIQUE constraint, and no freeze has the empty text as its
-- digest), then they are after any sequence of calls of Decide, ApproveDigest, FreezeTag and
-- BypassTag, whatever the engines answer and whatever external calls fail.
pub calls-IsWellFormed :
    (calls : List Call) (w : World) → IsWellFormed w.db → IsWellFormed (run_calls calls w).db
unfolding run_calls
calls-IsWellFormed [] w h = h
calls-IsWellFormed (c ∷ calls) w h =
    calls-IsWellFormed calls (run_call c w) (call-IsWellFormed c w h)
