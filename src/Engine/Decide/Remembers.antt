-- ===== src/Engine/Decide/Remembers.antt =====
-- The times at which digests were first seen, from one call of `Decide` to the next.
use ribat.Base.{List, some, Text, ◌≡◌}
use ribat.Time.{Time}
use ribat.Store.World.{World}
use ribat.Store.Observations.{find_observation}
use ribat.Store.Observations.FirstSeen.{
  first_seen, Remembers, remembering, touch-Remembers, mark-Remembers, create-Remembers,
}
use ribat.Engine.{Engine, Request}
use ribat.Engine.Decide.Lasts.{Lasting, decide_all, decide_all_lasts}

remembering_lasts : Lasting
unfolding Remembers first_seen find_observation
remembering_lasts = record {
  stable = record {
    order = remembering;
    inserts = create-Remembers;
    touches = touch-Remembers;
    marks = mark-Remembers;
    verifies = λ v w registry repository tag digest t h. h;
  };
  records = λ d w registry repository tag digest t h. h;
  logs = λ event w registry repository tag digest t h. h;
}

-- However many pulls are decided one after the other, by whatever configurations, clocks,
-- registries and verifiers, and whatever external calls fail, the time at which a digest of a tag
-- was first seen stays the same once the store has it.
pub decide_all-first_seen :
    (calls : List (Engine × Request)) (w : World) (registry repository tag digest : Text) (t : Time)
    → first_seen registry repository tag digest w.db ≡ some t
    → first_seen registry repository tag digest (decide_all calls w).db ≡ some t
unfolding Remembers remembering_lasts
decide_all-first_seen calls w registry repository tag digest t h =
    decide_all_lasts remembering_lasts calls w registry repository tag digest t h
