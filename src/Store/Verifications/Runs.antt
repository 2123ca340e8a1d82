-- ===== src/Store/Verifications/Runs.antt =====
-- How the statements on the verification cache run.
use ribat.Base.{Text}
use ribat.Store.Rows.{Db, CosignVerification}
use ribat.Store.World.{World}
use ribat.Store.World.Runs.{Runs, Runs-query, Runs-statement}
use ribat.Store.Verifications.{
  get_cosign_verification, find_verification, record_cosign_verification, upsert_verification,
}

pub get_cosign_verification-Runs :
    (registry repository digest policy_key : Text) (w : World)
    → Runs w
        (find_verification registry repository digest policy_key w.db)
        w.db
        (get_cosign_verification registry repository digest policy_key w)
unfolding get_cosign_verification
get_cosign_verification-Runs registry repository digest policy_key w =
    Runs-query _ (find_verification registry repository digest policy_key) w

abbrev pub with_verification : CosignVerification → Db → Db
with_verification v db = record db {
  cosign_verifications = upsert_verification v db.cosign_verifications;
}

pub record_cosign_verification-Runs :
    (v : CosignVerification) (w : World)
    → Runs w (tt {0}) (with_verification v w.db) (record_cosign_verification v w)
unfolding record_cosign_verification
record_cosign_verification-Runs v w = Runs-statement _ (with_verification v) w
