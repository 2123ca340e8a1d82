-- ===== src/Store/Invariant/Statements.antt =====
-- The statements that insert or update rows keep the table.
use ribat.Base.{
  ℕ, suc, ℤ, Bool, true, false, ◌&&◌, List, [], ◌∷◌, ◌++◌, map, if◌then◌else◌, any, all, leb, Text,
  text_eq, ◌==◌, ◌≡◌, refl, sym, ◌∙◌, ap, ap₂, subst, arith,
}
use ribat.Time.{unix}
use ribat.Store.Rows.{Table, ObservationRow, CosignRow, CosignVerification}
use ribat.Store.Observations.{is_observation, new_observation, insert_observation, update_rows}
use ribat.Store.Verifications.{
  is_verification, update_verification, update_verifications, upsert_verification,
}
use ribat.Store.Invariant.{IsTable, Keys}
use ribat.Store.Invariant.Tables.{append-IsTable, update-IsTable}
use ribat.Store.Export.{observation_keys, cosign_keys}
use ribat.Store.Export.Restores.{observation_symmetric, cosign_symmetric}

any_swap : {A : Type 0} (p q : A → Bool) → ((r : A) → p r ≡ q r) → (l : List A) → any p l ≡ any q l
any_swap p q h [] = refl
any_swap p q h (r ∷ l) = ground (arith, h r, any_swap p q h l)

pub none_clash : {A : Type 0} (l : List A) → any (λ (r : A). false) l ≡ false
none_clash [] = refl
none_clash (r ∷ l) = none_clash l

pub insert_observation-IsTable :
    (registry repository tag digest : Text) (ts : ℤ) (t : Table ObservationRow)
    → IsTable observation_keys t
    → IsTable observation_keys (insert_observation registry repository tag digest ts t)
unfolding insert_observation
insert_observation-IsTable registry repository tag digest ts t v =
    go (any (is_observation registry repository tag digest) t.rows) refl
  where
    go :
        (old : Bool)
        → any (is_observation registry repository tag digest) t.rows ≡ old
        → IsTable observation_keys (
            if old then t else record {
              rows = t.rows ++ new_observation registry repository tag digest ts (suc t.seq) ∷ [];
              seq = suc t.seq;
            })
    go true e = v
    go false e = append-IsTable observation_keys _ t v refl (
        any_swap _ _
          (λ r.
            observation_symmetric r (new_observation registry repository tag digest ts (suc t.seq)))
          t.rows
        ∙ e)

update_rows-map :
    (id : ℕ) (f : ObservationRow → ObservationRow) (rows : List ObservationRow)
    → update_rows id f rows ≡ map (λ r. if r.id == id then f r else r) rows
unfolding update_rows
update_rows-map id f [] = refl
update_rows-map id f (r ∷ rows) =
    ap (λ l. (if r.id == id then f r else r) ∷ l) (update_rows-map id f rows)

-- What an update of the row of one id leaves of every row.
update_one :
    {A B : Type 0} (g : A → B) (f : A → A)
    → ((r : A) → g (f r) ≡ g r)
    → (b : Bool) (r : A) → g (if b then f r else r) ≡ g r
update_one g f h true r = h r
update_one g f h false r = refl

-- What the UNIQUE constraint of the observations compares.
abbrev pub observation_key : ObservationRow → ℕ × Text × Text × Text × Text
observation_key r = (r.id, r.registry, r.repository, r.tag, r.digest)

abbrev key_clash : ℕ × Text × Text × Text × Text → ℕ × Text × Text × Text × Text → Bool
key_clash (i, a, b, c, d) (j, a', b', c', d') =
    text_eq a' a && text_eq b' b && text_eq c' c && text_eq d' d

pub update_observation-IsTable :
    (id : ℕ) (f : ObservationRow → ObservationRow) (t : Table ObservationRow)
    → ((r : ObservationRow) → observation_key (f r) ≡ observation_key r)
    → IsTable observation_keys t
    → IsTable observation_keys (record t { rows = update_rows id f t.rows })
unfolding is_observation
update_observation-IsTable id f t same v =
    subst (λ (rows : List ObservationRow). IsTable observation_keys (record t { rows = rows }))
      (sym (update_rows-map id f t.rows))
      (update-IsTable observation_keys (λ r. if r.id == id then f r else r)
        (λ r. ap (λ k. k.0) (update_one observation_key f same (r.id == id) r))
        (λ r s.
          ap₂ key_clash (update_one observation_key f same (r.id == id) r)
            (update_one observation_key f same (s.id == id) s))
        t v)

update_verifications-map :
    (v : CosignVerification) (rows : List CosignRow)
    → update_verifications v rows
      ≡ map
          (λ r.
            if is_verification v.registry v.repository v.digest v.policy_key r
            then update_verification v r
            else r)
          rows
unfolding update_verifications
update_verifications-map v [] = refl
update_verifications-map v (r ∷ rows) =
    ap
      (λ l.
        (if is_verification v.registry v.repository v.digest v.policy_key r
          then update_verification v r
          else r)
        ∷ l)
      (update_verifications-map v rows)

abbrev verification_key : CosignRow → ℕ × Text × Text × Text × Text
verification_key r = (r.id, r.registry, r.repository, r.digest, r.policy_key)

update_verifications-IsTable :
    (v : CosignVerification) (t : Table CosignRow)
    → IsTable cosign_keys t
    → IsTable cosign_keys (record t { rows = update_verifications v t.rows })
unfolding is_verification update_verification
update_verifications-IsTable v t w =
    let p : CosignRow → Bool = is_verification v.registry v.repository v.digest v.policy_key in
    let kept : (r : CosignRow)
        → verification_key (if p r then update_verification v r else r) ≡ verification_key r =
      λ r. update_one verification_key (update_verification v) (λ s. refl) (p r) r in
    subst (λ (rows : List CosignRow). IsTable cosign_keys (record t { rows = rows }))
      (sym (update_verifications-map v t.rows))
      (update-IsTable cosign_keys (λ r. if p r then update_verification v r else r)
        (λ r. ap (λ k. k.0) (kept r)) (λ r s. ap₂ key_clash (kept r) (kept s)) t w)

all_later :
    {A : Type 0} (id : A → ℕ) (seq : ℕ) (rows : List A)
    → all (λ r. leb (id r) seq) rows ≡ true
    → all (λ r. leb (id r) (suc seq)) rows ≡ true
all_later id seq [] h = refl
all_later id seq (r ∷ rows) h = ground (arith, all_later id seq rows)

-- The counter may go on.
IsTable-later :
    {A : Type 0} (k : Keys A) (t : Table A)
    → IsTable k t
    → IsTable k (record { rows = t.rows; seq = suc t.seq })
IsTable-later k t w = record {
  ascending = w.ascending;
  pairwise = w.pairwise;
  counted = all_later k.id t.seq t.rows w.counted;
}

pub upsert_verification-IsTable :
    (v : CosignVerification) (t : Table CosignRow)
    → IsTable cosign_keys t
    → IsTable cosign_keys (upsert_verification v t)
unfolding upsert_verification
upsert_verification-IsTable v t w =
    go (any (is_verification v.registry v.repository v.digest v.policy_key) t.rows) refl
  where
    row : CosignRow
    row = record {
      id = suc t.seq;
      registry = v.registry;
      repository = v.repository;
      digest = v.digest;
      policy_key = v.policy_key;
      image_ref = v.image_ref;
      verified_at = unix v.verified_at;
      success = v.success;
      reason = v.reason;
    }

    go :
        (old : Bool)
        → any (is_verification v.registry v.repository v.digest v.policy_key) t.rows ≡ old
        → IsTable cosign_keys (
            if old
            then record { rows = update_verifications v t.rows; seq = suc t.seq }
            else record { rows = t.rows ++ row ∷ []; seq = suc t.seq })
    go true e =
        IsTable-later cosign_keys (record t { rows = update_verifications v t.rows })
          (update_verifications-IsTable v t w)
    go false e =
        append-IsTable cosign_keys row t w refl
          (any_swap _ _ (λ r. cosign_symmetric r row) t.rows ∙ e)
