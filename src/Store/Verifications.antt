-- ===== src/Store/Verifications.antt =====
-- The statements on `cosign_verifications`: the cache of verification results.
pub mod Runs
use ribat.Base.{
  ℕ, suc, Bool, true, false, ◌&&◌, List, [], ◌∷◌, ◌++◌, Option, none, some, if◌then◌else◌, keep,
  any, Text, codes, text_eq,
}
use ribat.Time.{unix}
use ribat.Store.Rows.{CosignVerification, CosignRow, scan_cosign_value, Table, Db}
use ribat.Store.World.{Act, call, change, gets, ◌>>=◌, ◌>>◌}

-- `WHERE registry = ? AND repository = ? AND digest = ? AND policy_key = ?`.
unfoldable pub is_verification : Text → Text → Text → Text → CosignRow → Bool
is_verification registry repository digest policy_key r =
    text_eq r.registry registry
    && text_eq r.repository repository
    && text_eq r.digest digest
    && text_eq r.policy_key policy_key

unfoldable pub scan_first : List CosignRow → Option CosignVerification
scan_first [] = none
scan_first (r ∷ _) = some (scan_cosign_value r)

unfoldable pub find_verification : Text → Text → Text → Text → Db → Option CosignVerification
unfolding scan_first
find_verification registry repository digest policy_key db =
    scan_first
      (keep (is_verification registry repository digest policy_key) db.cosign_verifications.rows)

unfoldable pub get_cosign_verification :
    Text → Text → Text → Text → Act Text (Option CosignVerification)
get_cosign_verification registry repository digest policy_key = do
  call (codes "get cosign verification: ")
  gets (λ w. find_verification registry repository digest policy_key w.db)

-- `ON CONFLICT (…) DO UPDATE SET …` on the row that is there.
unfoldable pub update_verification : CosignVerification → CosignRow → CosignRow
update_verification v r = record r {
  image_ref = v.image_ref;
  verified_at = unix v.verified_at;
  success = v.success;
  reason = v.reason;
}

unfoldable pub update_verifications : CosignVerification → List CosignRow → List CosignRow
unfolding update_verification
update_verifications v [] = []
update_verifications v (r ∷ rows) =
    (if is_verification v.registry v.repository v.digest v.policy_key r
      then update_verification v r
      else r)
    ∷ update_verifications v rows

-- AUTOINCREMENT counts the id that the row would have had, even if the row is there already.
unfoldable pub upsert_verification : CosignVerification → Table CosignRow → Table CosignRow
unfolding update_verifications
upsert_verification v t =
    let row : CosignRow = record {
      id = suc t.seq;
      registry = v.registry;
      repository = v.repository;
      digest = v.digest;
      policy_key = v.policy_key;
      image_ref = v.image_ref;
      verified_at = unix v.verified_at;
      success = v.success;
      reason = v.reason;
    } in
    if any (is_verification v.registry v.repository v.digest v.policy_key) t.rows
    then record { rows = update_verifications v t.rows; seq = suc t.seq }
    else record { rows = t.rows ++ row ∷ []; seq = suc t.seq }

unfoldable pub record_cosign_verification : CosignVerification → Act Text (Unit {0})
unfolding upsert_verification
record_cosign_verification v = do
  call (codes "record cosign verification: ")
  change (λ db. record db { cosign_verifications = upsert_verification v db.cosign_verifications })
