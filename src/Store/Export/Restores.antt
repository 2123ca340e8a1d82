-- ===== src/Store/Export/Restores.antt =====
-- What is exported comes back.
use ribat.Base.{
  ℤ, pos, Bool, true, List, [], ◌∷◌, map, Option, none, some, Text, text_eq_comm, ◌≡◌, refl, ap,
  ◌∙◌, all, sort_by, ap₂, &&_split,
}
use ribat.Time.{nullable_unix, nullable_time, unix-from_unix}
use ribat.Store.Rows.{
  Db, Table, empty_db, empty_table, ObservationRow, scan_observation_value, DecisionRow,
  scan_decision_row, ApprovalRow, scan_approval_value, FreezeRow, scan_freeze_value,
  nullable_string, null_string, BypassRow, scan_bypass_value, CosignRow, scan_cosign_value,
}
use ribat.Store.Tables.{Keys, by_id, import_rows, replace_rows, rows-import_rows}
use ribat.Store.Tables.Import.{replace-restores, all-sort_by}
use ribat.Store.Invariant.{IsTable, IsWellFormed, is_set}
use ribat.Store.Observations.{is_observation}
use ribat.Store.Decisions.{earlier_decision}
use ribat.Store.Verifications.{is_verification}
use ribat.Store.Export.{
  ExportedState, observation_keys, decision_keys, approval_keys, freeze_keys, bypass_keys,
  cosign_keys, observation_row, decision_row, approval_row, freeze_row, bypass_row, cosign_row,
}
use ribat.Store.Export.Import.{imported}

nullable-restores : (t : Option ℤ) → nullable_unix (nullable_time t) ≡ t
unfolding nullable_unix nullable_time
nullable-restores none = refl
nullable-restores (some s) = ap some (unix-from_unix s)

observation_restores : (r : ObservationRow) → observation_row (scan_observation_value r) ≡ r
unfolding observation_row scan_observation_value
observation_restores r = simp (unix-from_unix, nullable-restores)

decision_restores : (r : DecisionRow) → decision_row (scan_decision_row r) ≡ r
unfolding decision_row scan_decision_row
decision_restores r = simp unix-from_unix

approval_restores : (r : ApprovalRow) → approval_row (scan_approval_value r) ≡ r
unfolding approval_row scan_approval_value
approval_restores r = simp (unix-from_unix, nullable-restores)

bypass_restores : (r : BypassRow) → bypass_row (scan_bypass_value r) ≡ r
unfolding bypass_row scan_bypass_value
bypass_restores r = simp (unix-from_unix, nullable-restores)

cosign_restores : (r : CosignRow) → cosign_row (scan_cosign_value r) ≡ r
unfolding cosign_row scan_cosign_value
cosign_restores r = simp unix-from_unix

digest_restores : (d : Option Text) → is_set d ≡ true → nullable_string (null_string d) ≡ d
unfolding nullable_string null_string
digest_restores none h = refl
digest_restores (some []) h = cc
digest_restores (some (c ∷ s)) h = refl

freeze_restores : (r : FreezeRow) → is_set r.digest ≡ true → freeze_row (scan_freeze_value r) ≡ r
unfolding freeze_row scan_freeze_value
freeze_restores r h = simp (unix-from_unix, nullable-restores, digest_restores r.digest h)

-- The state that `ExportState` reads off the tables.
unfoldable pub exported : Db → ExportedState
exported db = record {
  version = pos 1;
  observations =
      map scan_observation_value (sort_by (by_id observation_keys) db.tag_observations.rows);
  decisions = map scan_decision_row (sort_by earlier_decision db.pull_decisions.rows);
  approvals = map scan_approval_value (sort_by (by_id approval_keys) db.approvals.rows);
  freezes = map scan_freeze_value (sort_by (by_id freeze_keys) db.freezes.rows);
  bypasses = map scan_bypass_value (sort_by (by_id bypass_keys) db.bypasses.rows);
  cosign = map scan_cosign_value (sort_by (by_id cosign_keys) db.cosign_verifications.rows);
}

module _ {A B : Type 0} (row : B → A) (scan : A → B) (good : A → Bool)
    (restores : (r : A) → good r ≡ true → row (scan r) ≡ r) where
  map-restores : (l : List A) → all good l ≡ true → map row (map scan l) ≡ l
  map-restores [] h = refl
  map-restores (r ∷ l) h =
      let front : good r ≡ true = (&&_split h).0 in
      ap₂ ◌∷◌ (restores r front) (map-restores l (&&_split h).1)

  table_restores :
      (k : Keys A) (before : A → A → Bool) (t : Table A)
      → ((r s : A) → k.clash r s ≡ k.clash s r)
      → IsTable k t
      → all good t.rows ≡ true
      → (import_rows k (map row (map scan (sort_by before t.rows))) empty_table).rows ≡ t.rows
  table_restores k before t symmetric v h =
      rows-import_rows k (map row (map scan (sort_by before t.rows))) empty_table
      ∙ ap (λ (l : List A). replace_rows k l [])
          (map-restores (sort_by before t.rows) (all-sort_by good before t.rows ∙ h))
      ∙ replace-restores k symmetric before t.rows v.ascending v.pairwise

all-true : {A : Type 0} (l : List A) → all (λ (r : A). true) l ≡ true
all-true [] = refl
all-true (r ∷ l) = all-true l

pub observation_symmetric :
    (r s : ObservationRow) → observation_keys.clash r s ≡ observation_keys.clash s r
unfolding is_observation
observation_symmetric r s =
    simp (
      text_eq_comm s.registry,
      text_eq_comm s.repository,
      text_eq_comm s.tag,
      text_eq_comm s.digest,
    )

pub cosign_symmetric : (r s : CosignRow) → cosign_keys.clash r s ≡ cosign_keys.clash s r
unfolding is_verification
cosign_symmetric r s = simp (
  text_eq_comm s.registry,
  text_eq_comm s.repository,
  text_eq_comm s.digest,
  text_eq_comm s.policy_key,
)

-- The rows of the two are the same, table by table.
abbrev pub SameRows : Db → Db → Type 0
SameRows a b =
    (a.tag_observations.rows ≡ b.tag_observations.rows)
    × (a.pull_decisions.rows ≡ b.pull_decisions.rows)
    × (a.approvals.rows ≡ b.approvals.rows)
    × (a.freezes.rows ≡ b.freezes.rows)
    × (a.bypasses.rows ≡ b.bypasses.rows)
    × (a.cosign_verifications.rows ≡ b.cosign_verifications.rows)

pub imported-exported : (db : Db) → IsWellFormed db → SameRows (imported (exported db) empty_db) db
unfolding imported exported
imported-exported db v = (
  table_restores _ _ (λ r. true) (λ r h. observation_restores r) observation_keys _ _
      observation_symmetric v.observations (all-true db.tag_observations.rows),
  table_restores _ _ (λ r. true) (λ r h. decision_restores r) decision_keys _ _ (λ r s. refl)
      v.decisions (all-true db.pull_decisions.rows),
  table_restores _ _ (λ r. true) (λ r h. approval_restores r) approval_keys _ _ (λ r s. refl)
      v.approvals (all-true db.approvals.rows),
  table_restores _ _ (λ r. is_set r.digest) freeze_restores freeze_keys _ _ (λ r s. refl) v.freezes
      v.digests,
  table_restores _ _ (λ r. true) (λ r h. bypass_restores r) bypass_keys _ _ (λ r s. refl) v.bypasses
      (all-true db.bypasses.rows),
  table_restores _ _ (λ r. true) (λ r h. cosign_restores r) cosign_keys _ _ cosign_symmetric
      v.verifications (all-true db.cosign_verifications.rows),
)
