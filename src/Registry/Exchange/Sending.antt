-- ===== src/Registry/Exchange/Sending.antt =====
-- What a method sends, and what holds when it gives a value.
use ribat.Base.{
  ℕ, ◌+◌, ◌≤◌, Bool, true, false, List, [], ◌∷◌, ◌++◌, append_assoc, length, length-append, all,
  all-append, if◌then◌else◌, Text, Result, ok, err, ◌≡◌, refl, sym, ◌∙◌, ap, arith, subst,
}
use ribat.Registry.Exchange.{
  Sent, Reply, Libraries, Exchange, give, give_result, go_on, request, ◌>>=◌, sent_if, answered,
}

-- However often it has sent before, the method sends at most `n` requests more, and each passes the
-- test.
pub record Sends (n : ℕ) (p : Sent → Bool) {E A : Type 0} (m : Exchange E A) : Type 0 where
  pub sends :
      (sent : List Sent)
      → (more : List Sent) × ((m sent).1 ≡ more ++ sent) × (length more ≤ n) × (all p more ≡ true)

module _ (p : Sent → Bool) {E A : Type 0} where
  pub Sends-result : (n : ℕ) (r : Result E A) → Sends n p (give_result r)
  unfolding give_result
  Sends-result n r = record { sends = λ sent. ([], refl, omega arith, refl) }

  pub Sends-give : (n : ℕ) (a : A) → Sends n p {E = E} (give a)
  unfolding give
  Sends-give n a = record { sends = λ sent. ([], refl, omega arith, refl) }

  pub Sends-if :
      (n : ℕ) (b : Bool) (m k : Exchange E A)
      → Sends n p m
      → Sends n p k
      → Sends n p (if b then m else k)
  Sends-if n true m k h g = h
  Sends-if n false m k h g = g

module _ (p : Sent → Bool) {E A B : Type 0} (n k : ℕ) where
  go_on-Sends :
      (r : Result E A) (f : A → Exchange E B) (more sent : List Sent)
      → length more ≤ n
      → all p more ≡ true
      → ((a : A) → Sends k p (f a))
      → (all_sent : List Sent) × ((go_on r f (more ++ sent)).1 ≡ all_sent ++ sent)
        × (length all_sent ≤ n + k)
        × (all p all_sent ≡ true)
  unfolding go_on
  go_on-Sends (err e) f more sent few good next = (more, refl, omega arith, good)
  go_on-Sends (ok a) f more sent few good next =
      let (later, same, few', good') = (next a).sends (more ++ sent) in
      (
        later ++ more,
        same ∙ sym (append_assoc later more sent),
        omega (arith, length-append later more),
        all-append p later more ∙ ground (arith, good, good'),
      )

  pub Sends-bind :
      (m : Exchange E A) (f : A → Exchange E B)
      → Sends n p m
      → ((a : A) → Sends k p (f a))
      → Sends (n + k) p (m >>= f)
  unfolding ◌>>=◌
  Sends-bind m f h next = record {
    sends = λ sent.
        let (more, same, few, good) = h.sends sent in
        let (later, same', few', good') = go_on-Sends (m sent).0 f more sent few good next in
        (later, ap (λ s. (go_on (m sent).0 f s).1) same ∙ same', few', good');
  }

  -- A value that is known, and then the rest.
  pub Sends-known :
      (a : A) (r : Result E A) (f : A → Exchange E B)
      → r ≡ ok a
      → Sends k p (f a)
      → Sends k p (give_result r >>= f)
  unfolding give_result ◌>>=◌ go_on
  Sends-known a r f e h =
      subst (λ x. Sends k p (give_result x >>= f)) (sym e) (record { sends = h.sends })

module _ (l : Libraries) {E : Type 0} (bad failed : Text → E) (q : Sent) where
  sent_if-Sends :
      (p : Sent → Bool) (checked : Result Text (Unit {0})) (sent : List Sent)
      → p q ≡ true
      → (more : List Sent) × ((sent_if l bad failed q checked sent).1 ≡ more ++ sent)
        × (length more ≤ 1)
        × (all p more ≡ true)
  unfolding sent_if
  sent_if-Sends p (err m) sent h = ([], refl, omega arith, refl)
  sent_if-Sends p (ok x) sent h = (q ∷ [], refl, omega arith, ground arith)

  pub Sends-request : (p : Sent → Bool) → p q ≡ true → Sends 1 p (request l bad failed q)
  unfolding request
  Sends-request p h = record {
    sends = λ sent. sent_if-Sends p (l.new_request q.method q.url) sent h;
  }

-- What holds of the value and the requests sent, where there is a value.
abbrev pub Ensures : {E A : Type 0} → (A → List Sent → Type 0) → Result E A × List Sent → Type 0
Ensures Q (ok a, sent) = Q a sent
Ensures Q (err e, sent) = Unit

module _ {E A B : Type 0} (Q : A → List Sent → Type 0) (R : B → List Sent → Type 0) where
  go_on-Ensures :
      (r : Result E A) (sent : List Sent) (f : A → Exchange E B)
      → Ensures Q (r, sent)
      → ((a : A) (later : List Sent) → Q a later → Ensures R (f a later))
      → Ensures R (go_on r f sent)
  unfolding go_on
  go_on-Ensures (ok a) sent f h next = next a sent h
  go_on-Ensures (err e) sent f h next = tt

  pub Ensures-bind :
      (m : Exchange E A) (f : A → Exchange E B) (sent : List Sent)
      → Ensures Q (m sent)
      → ((a : A) (later : List Sent) → Q a later → Ensures R (f a later))
      → Ensures R ((m >>= f) sent)
  unfolding ◌>>=◌
  Ensures-bind m f sent h next = go_on-Ensures (m sent).0 (m sent).1 f h next

-- The reply is the answer to the last request, which went to the URL.
pub record IsLast (l : Libraries) (url : Text) (reply : Reply) (sent : List Sent) : Type 0 where
  pub last : Sent
  pub earlier : List Sent
  pub whole : sent ≡ last ∷ earlier
  pub target : last.url ≡ url
  pub answer : l.send earlier last ≡ ok reply

module _ (l : Libraries) {E : Type 0} (bad failed : Text → E) (q : Sent) where
  answered-IsLast :
      (r : Result Text Reply) (sent : List Sent)
      → l.send sent q ≡ r
      → Ensures (IsLast l q.url) (answered l bad failed r, q ∷ sent)
  unfolding answered
  answered-IsLast (ok reply) sent h = record {
    last = q;
    earlier = sent;
    whole = refl;
    target = refl;
    answer = h;
  }
  answered-IsLast (err m) sent h = tt

  sent_if-IsLast :
      (checked : Result Text (Unit {0})) (sent : List Sent)
      → Ensures (IsLast l q.url) (sent_if l bad failed q checked sent)
  unfolding sent_if
  sent_if-IsLast (err m) sent = tt
  sent_if-IsLast (ok x) sent = answered-IsLast (l.send sent q) sent refl

  pub request-IsLast : (sent : List Sent) → Ensures (IsLast l q.url) (request l bad failed q sent)
  unfolding request
  request-IsLast sent = sent_if-IsLast (l.new_request q.method q.url) sent
