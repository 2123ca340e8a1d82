-- ===== src/Store/Invariant/Keeps.antt =====
-- Every statement that changes tables leaves them well-formed.
use ribat.Base.{ℕ, ℤ, true, ◌&&◌, [], ◌∷◌, all-append, Text, ◌≡◌, refl, ◌∙◌, ap, ap₂}
use ribat.Time.{Time, unix}
use ribat.Store.Rows.{Db, ObservationRow, CosignVerification, DecisionRecord, nullable_string}
use ribat.Store.Observations.{update_observation, touch, mark_allowed}
use ribat.Store.Observations.Runs.{with_observation}
use ribat.Store.Verifications.Runs.{with_verification}
use ribat.Store.Decisions.{insert_decision}
use ribat.Store.Overrides.Insert.{Grant, insert_approval, insert_freeze, insert_bypass}
use ribat.Store.Invariant.{IsWellFormed, is_set}
use ribat.Store.Invariant.Tables.{append-IsTable}
use ribat.Store.Export.{decision_keys, approval_keys, freeze_keys, bypass_keys}
use ribat.Store.Invariant.Statements.{
  none_clash, insert_observation-IsTable, observation_key, update_observation-IsTable,
  upsert_verification-IsTable,
}

pub nullable_is_set : (digest : Text) → is_set (nullable_string digest) ≡ true
unfolding nullable_string
nullable_is_set [] = refl
nullable_is_set (c ∷ s) = refl

module _ (db : Db) (v : IsWellFormed db) where
  pub create-IsWellFormed :
      (registry repository tag digest : Text) (now : Time)
      → IsWellFormed (with_observation registry repository tag digest now db)
  create-IsWellFormed registry repository tag digest now = record {
    observations =
        insert_observation-IsTable registry repository tag digest (unix now) _ v.observations;
    decisions = v.decisions;
    approvals = v.approvals;
    freezes = v.freezes;
    bypasses = v.bypasses;
    verifications = v.verifications;
    digests = v.digests;
  }

  update-IsWellFormed :
      (id : ℕ) (f : ObservationRow → ObservationRow)
      → ((r : ObservationRow) → observation_key (f r) ≡ observation_key r)
      → IsWellFormed (update_observation id f db)
  unfolding update_observation
  update-IsWellFormed id f same = record {
    observations = update_observation-IsTable id f _ same v.observations;
    decisions = v.decisions;
    approvals = v.approvals;
    freezes = v.freezes;
    bypasses = v.bypasses;
    verifications = v.verifications;
    digests = v.digests;
  }

  pub touch-IsWellFormed : (id : ℕ) (ts : ℤ) → IsWellFormed (update_observation id (touch ts) db)
  unfolding touch
  touch-IsWellFormed id ts = update-IsWellFormed id (touch ts) (λ r. refl)

  pub mark-IsWellFormed :
      (id : ℕ) (ts : ℤ) → IsWellFormed (update_observation id (mark_allowed ts) db)
  unfolding mark_allowed
  mark-IsWellFormed id ts = update-IsWellFormed id (mark_allowed ts) (λ r. refl)

  pub verify-IsWellFormed : (c : CosignVerification) → IsWellFormed (with_verification c db)
  verify-IsWellFormed c = record {
    observations = v.observations;
    decisions = v.decisions;
    approvals = v.approvals;
    freezes = v.freezes;
    bypasses = v.bypasses;
    verifications = upsert_verification-IsTable c _ v.verifications;
    digests = v.digests;
  }

  pub record-IsWellFormed :
      (d : DecisionRecord)
      → IsWellFormed (record db { pull_decisions = insert_decision d db.pull_decisions })
  unfolding insert_decision
  record-IsWellFormed d = record {
    observations = v.observations;
    decisions =
        append-IsTable decision_keys _ _ v.decisions refl (none_clash db.pull_decisions.rows);
    approvals = v.approvals;
    freezes = v.freezes;
    bypasses = v.bypasses;
    verifications = v.verifications;
    digests = v.digests;
  }

  pub approve-IsWellFormed :
      (g : Grant) (digest : Text)
      → IsWellFormed (record db { approvals = insert_approval g digest db.approvals })
  unfolding insert_approval
  approve-IsWellFormed g digest = record {
    observations = v.observations;
    decisions = v.decisions;
    approvals = append-IsTable approval_keys _ _ v.approvals refl (none_clash db.approvals.rows);
    freezes = v.freezes;
    bypasses = v.bypasses;
    verifications = v.verifications;
    digests = v.digests;
  }

  pub freeze-IsWellFormed :
      (g : Grant) (digest : Text)
      → IsWellFormed (record db { freezes = insert_freeze g digest db.freezes })
  unfolding insert_freeze
  freeze-IsWellFormed g digest = record {
    observations = v.observations;
    decisions = v.decisions;
    approvals = v.approvals;
    freezes = append-IsTable freeze_keys _ _ v.freezes refl (none_clash db.freezes.rows);
    bypasses = v.bypasses;
    verifications = v.verifications;
    digests =
        all-append (λ r. is_set r.digest) db.freezes.rows _
        ∙ ap₂ ◌&&◌ v.digests (ap (λ b. b && true) (nullable_is_set digest));
  }

  pub bypass-IsWellFormed :
      (g : Grant) → IsWellFormed (record db { bypasses = insert_bypass g db.bypasses })
  unfolding insert_bypass
  bypass-IsWellFormed g = record {
    observations = v.observations;
    decisions = v.decisions;
    approvals = v.approvals;
    freezes = v.freezes;
    bypasses = append-IsTable bypass_keys _ _ v.bypasses refl (none_clash db.bypasses.rows);
    verifications = v.verifications;
    digests = v.digests;
  }
