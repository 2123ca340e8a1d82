-- ===== src/Tests/State.antt =====
-- The theorems on the tables at concrete inputs.
use ribat.Base.{ℤ, pos, List, [], ◌∷◌, none, some, Text, codes, ok, refl, ◌≡◌}
use ribat.Store.Rows.{empty_db}
use ribat.Store.World.{World}
use ribat.Store.Invariant.{IsWellFormed}
use ribat.Store.Export.{ExportedState, export_state}
use ribat.Store.Export.Import.{import_state}
use ribat.Store.Export.Restores.{SameRows}
use ribat.Store.Export.RoundTrip.{export-import}
use ribat.Store.Export.Atomic.{Atomic, import_state-Atomic}
use ribat.Store.Overrides.Insert.{Grant}
use ribat.Engine.Decide.WellFormed.{Call, run_calls, calls-IsWellFormed}
use ribat.Tests.{sample_db, sample_world, sample_engine, sample_request}

pub sample_db-IsWellFormed : IsWellFormed sample_db
sample_db-IsWellFormed = record {
  observations = record { ascending = (refl, tt); pairwise = (refl, tt); counted = refl };
  decisions = record { ascending = tt; pairwise = tt; counted = refl };
  approvals = record { ascending = tt; pairwise = tt; counted = refl };
  freezes = record { ascending = tt; pairwise = tt; counted = refl };
  bypasses = record { ascending = tt; pairwise = tt; counted = refl };
  verifications = record { ascending = tt; pairwise = tt; counted = refl };
  digests = refl;
}

abbrev plain : ℤ → Text
plain n = codes "0"

-- A new installation.
abbrev new_world : World
new_world = record { db = empty_db; audit_log = []; faults = [] }

export-import_example :
    (st : ExportedState) × ((export_state sample_world).0 ≡ ok st)
    × ((import_state plain st new_world).0 ≡ ok tt)
    × SameRows (import_state plain st new_world).1.db sample_db
export-import_example =
    export-import plain sample_world new_world sample_db-IsWellFormed refl refl refl

abbrev sample_state : ExportedState
sample_state = record {
  version = pos 1;
  observations = [];
  decisions = [];
  approvals = [];
  freezes = [];
  bypasses = [];
  cosign = [];
}

-- The transaction begins, and the commit fails.
abbrev failing_world : World
failing_world = record {
  db = sample_db;
  audit_log = [];
  faults = none ∷ some (codes "disk full") ∷ [];
}

import_state-Atomic_example :
    Atomic sample_state sample_db (import_state plain sample_state failing_world)
import_state-Atomic_example = import_state-Atomic plain sample_state failing_world

abbrev sample_grant : Grant
sample_grant = record {
  registry = codes "docker.io";
  repository = codes "library/nginx";
  tag = codes "latest";
  at = pos 0;
  by = codes "alice";
  reason = codes "release";
  expires_at = none;
}

abbrev sample_calls : List Call
sample_calls =
    Call.decides sample_engine sample_request
    ∷ Call.freezes sample_grant []
    ∷ Call.decides sample_engine sample_request
    ∷ []

calls-IsWellFormed_example : IsWellFormed (run_calls sample_calls sample_world).db
calls-IsWellFormed_example = calls-IsWellFormed sample_calls sample_world sample_db-IsWellFormed
