-- ===== src/Store/Invariant.antt =====
-- What holds of the tables between two calls.
pub mod Tables
pub mod Statements
pub mod Keeps
pub mod Imports
pub mod Lawful
use ribat.Base.{
  ℕ, Bool, true, false, not, List, [], ◌∷◌, Option, none, some, leb, all, Text, is_empty, ◌≡◌, refl,
}
use ribat.Store.Rows.{Db, Table, empty_db}
use ribat.Store.Tables.{Keys}
use ribat.Store.Tables.Order.{Ascending, Pairwise}
use ribat.Store.Export.{
  observation_keys, decision_keys, approval_keys, freeze_keys, bypass_keys, cosign_keys,
}

-- The ids grow and none is larger than the counter, and no UNIQUE constraint is broken.
pub record IsTable {A : Type 0} (k : Keys A) (t : Table A) : Type 0 where
  pub ascending : Ascending k t.rows
  pub pairwise : Pairwise k t.rows
  pub counted : all (λ r. leb (k.id r) t.seq) t.rows ≡ true

-- A digest is set or absent, never the empty text.
abbrev pub is_set : Option Text → Bool
is_set none = true
is_set (some s) = not (is_empty s)

pub record IsWellFormed (db : Db) : Type 0 where
  pub observations : IsTable observation_keys db.tag_observations
  pub decisions : IsTable decision_keys db.pull_decisions
  pub approvals : IsTable approval_keys db.approvals
  pub freezes : IsTable freeze_keys db.freezes
  pub bypasses : IsTable bypass_keys db.bypasses
  pub verifications : IsTable cosign_keys db.cosign_verifications
  pub digests : all (λ r. is_set r.digest) db.freezes.rows ≡ true

pub empty-IsWellFormed : IsWellFormed empty_db
empty-IsWellFormed = record {
  observations = record { ascending = tt; pairwise = tt; counted = refl };
  decisions = record { ascending = tt; pairwise = tt; counted = refl };
  approvals = record { ascending = tt; pairwise = tt; counted = refl };
  freezes = record { ascending = tt; pairwise = tt; counted = refl };
  bypasses = record { ascending = tt; pairwise = tt; counted = refl };
  verifications = record { ascending = tt; pairwise = tt; counted = refl };
  digests = refl;
}
