-- ===== src/Commands/AuditLog/Wanted.antt =====
-- Which events of the audit log `ribat audit` is asked for.
use ribat.Base.{
  ℤ, pos, negsuc, ◌-◌, ◌^◌, ◌-ℤ◌, ◌+ℤ◌, ◌≤ℤ◌, ◌<ℤ◌, ltb_ℤ, wrap64, pos_part, neg_part, Bool, true,
  false, not, ◌&&◌, ◌||◌, List, [], ◌∷◌, keep, Option, none, some, Text, text_eq, text_eq→eq,
  text_eq_refl, is_empty, Result, ok, err, ◌≡◌, ◌↔◌, ◌⊎◌, refl, sym, subst, arith, Bool-cases, inl,
  inr,
}
use ribat.Time.{Time, add_time}
use ribat.Image.{Reference, ImageError, parse_reference}
use ribat.Audit.{Event}
use ribat.Commands.{Machine}
use ribat.Commands.AuditLog.{
  located, with_location, is_at, audit_event_matches_image, is_since, is_of_image, passes,
  filter_of, negated, image_filter, cutoff,
}

-- A place is that of a reference; a reference with no digest stands for every digest.
pub record SamePlace (ref : Reference) (on in_place under by : Text) : Type 0 where
  pub registry : on ≡ ref.registry
  pub repository : in_place ≡ ref.repository
  pub tag : under ≡ ref.tag
  pub digest : (ref.digest ≡ []) ⊎ (by ≡ ref.digest)

-- An event is one of the image that a reference names. What counts is the place written in the event,
-- or where that has no registry, the place that its image names.
pub data IsOf (ref : Reference) (event : Event) : Type 0 where
  by_place :
      (is_empty event.registry && not (is_empty event.image_ref)) ≡ false
      → SamePlace ref event.registry event.repository event.tag event.digest
      → IsOf ref event
  by_image :
      (named : Reference)
      → (is_empty event.registry && not (is_empty event.image_ref)) ≡ true
      → parse_reference event.image_ref ≡ ok named
      → SamePlace ref named.registry named.repository named.tag named.digest
      → IsOf ref event
  by_rest :
      (e : ImageError)
      → (is_empty event.registry && not (is_empty event.image_ref)) ≡ true
      → parse_reference event.image_ref ≡ err e
      → SamePlace ref event.registry event.repository event.tag event.digest
      → IsOf ref event

-- An event is no older than the duration that `--since` gives.
abbrev pub IsRecent : Time → Option ℤ → Event → Type 0
IsRecent now none event = Unit
IsRecent now (some d) event = now -ℤ d ≤ℤ event.timestamp

abbrev pub IsOfImage : Option Reference → Event → Type 0
IsOfImage none event = Unit
IsOfImage (some ref) event = IsOf ref event

pub record IsWanted (now : Time) (since : Option ℤ) (image : Option Reference) (event : Event)
    : Type 0 where
  pub recent : IsRecent now since event
  pub of_image : IsOfImage image event

-- The duration can be negated in 64 bits.
abbrev pub IsNegatable : Option ℤ → Type 0
IsNegatable none = Unit
IsNegatable (some d) = negsuc (2 ^ 63 - 1) <ℤ d

pos_part-negated : (d : ℤ) → IsNegatable (some d) → pos_part (negated d) ≡ neg_part d
unfolding negated wrap64 ◌-ℤ◌
pos_part-negated (pos n) h = ground arith
pos_part-negated (negsuc n) h = ground arith

neg_part-negated : (d : ℤ) → IsNegatable (some d) → neg_part (negated d) ≡ pos_part d
unfolding negated wrap64 ◌-ℤ◌
neg_part-negated (pos n) h = ground arith
neg_part-negated (negsuc n) h = ground arith

add_time-negated : (t : Time) (d : ℤ) → IsNegatable (some d) → add_time t (negated d) ≡ t -ℤ d
unfolding add_time ◌+ℤ◌ ◌-ℤ◌
add_time-negated t d h = rw (pos_part-negated d h, neg_part-negated d h) refl

late_iff : (t c : ℤ) → (not (ltb_ℤ t c) ≡ true) ↔ (c ≤ℤ t)
late_iff t c = (λ h. ground arith, λ h. ground arith)

is_since_iff :
    (m : Machine) (since : Option ℤ) (event : Event)
    → IsNegatable since
    → (is_since (cutoff m since) event ≡ true) ↔ IsRecent m.now since event
unfolding is_since cutoff
is_since_iff m none event h = (λ k. tt, λ k. refl)
is_since_iff m (some d) event h =
    subst (λ (c : ℤ). (not (ltb_ℤ event.timestamp c) ≡ true) ↔ (m.now -ℤ d ≤ℤ event.timestamp))
      (sym (add_time-negated m.now d h)) (late_iff event.timestamp (m.now -ℤ d))

is_empty→nil : (t : Text) → is_empty t ≡ true → t ≡ []
is_empty→nil [] h = refl
is_empty→nil (c ∷ t) h = cc

module _ (ref : Reference) (event : Event) where
  is_at-SamePlace :
      is_at ref event ≡ true → SamePlace ref event.registry event.repository event.tag event.digest
  unfolding is_at
  is_at-SamePlace h = record {
    registry = text_eq→eq event.registry ref.registry (ground (arith, h));
    repository = text_eq→eq event.repository ref.repository (ground (arith, h));
    tag = text_eq→eq event.tag ref.tag (ground (arith, h));
    digest = elim (Bool-cases (is_empty ref.digest)) [
      | inl e ↦ inl (is_empty→nil ref.digest e)
      | inr e ↦ inr (text_eq→eq event.digest ref.digest (ground (arith, h, e)))
    ];
  }

  SamePlace-is_at :
      SamePlace ref event.registry event.repository event.tag event.digest → is_at ref event ≡ true
  unfolding is_at
  SamePlace-is_at p =
      let registry : text_eq event.registry ref.registry ≡ true =
        subst (λ (t : Text). text_eq event.registry t ≡ true) p.registry
          (text_eq_refl event.registry) in
      let repository : text_eq event.repository ref.repository ≡ true =
        subst (λ (t : Text). text_eq event.repository t ≡ true) p.repository
          (text_eq_refl event.repository) in
      let tag : text_eq event.tag ref.tag ≡ true =
        subst (λ (t : Text). text_eq event.tag t ≡ true) p.tag (text_eq_refl event.tag) in
      let digest : (is_empty ref.digest || text_eq event.digest ref.digest) ≡ true = elim p.digest [
        | inl e ↦ rw e refl
        | inr e ↦
            let same : text_eq event.digest ref.digest ≡ true =
              subst (λ (t : Text). text_eq event.digest t ≡ true) e (text_eq_refl event.digest) in
            ground (arith, same)
      ] in
      rw (registry, repository, tag) digest

module _ (ref : Reference) (event : Event) where
  named_iff :
      (r : Result ImageError Reference)
      → parse_reference event.image_ref ≡ r
      → (is_empty event.registry && not (is_empty event.image_ref)) ≡ true
      → (is_at ref (located event r) ≡ true) ↔ IsOf ref event
  unfolding located
  named_iff (ok named) e bare = (
    λ h. by_image named bare e (is_at-SamePlace ref (located event (ok named)) h),
    λ k. elim k [
      | by_place full p ↦ absurd (cc (bare, full))
      | by_image other _ e' p ↦
          let same : other ≡ named = cc (e, e') in
          SamePlace-is_at ref (located event (ok named))
            (subst (λ (x : Reference). SamePlace ref x.registry x.repository x.tag x.digest) same p)
      | by_rest f _ e' p ↦ absurd (cc (e, e'))
    ],
  )
  named_iff (err m) e bare = (
    λ h. by_rest m bare e (is_at-SamePlace ref event h),
    λ k. elim k [
      | by_place full p ↦ absurd (cc (bare, full))
      | by_image other _ e' p ↦ absurd (cc (e, e'))
      | by_rest f _ e' p ↦ SamePlace-is_at ref event p
    ],
  )

  audit_event_matches_image_iff : (audit_event_matches_image event ref ≡ true) ↔ IsOf ref event
  unfolding audit_event_matches_image with_location
  audit_event_matches_image_iff =
      elim (Bool-cases (is_empty event.registry && not (is_empty event.image_ref))) [
        | inl bare ↦ rw bare (named_iff (parse_reference event.image_ref) refl bare)
        | inr full ↦ rw full (
          λ h. by_place full (is_at-SamePlace ref event h),
          λ k. elim k [
            | by_place _ p ↦ SamePlace-is_at ref event p
            | by_image other bare e' p ↦ absurd (cc (bare, full))
            | by_rest f bare e' p ↦ absurd (cc (bare, full))
          ],
        )
      ]

is_of_image_iff :
    (image : Option Reference) (event : Event)
    → (is_of_image image event ≡ true) ↔ IsOfImage image event
unfolding is_of_image
is_of_image_iff none event = (λ h. tt, λ h. refl)
is_of_image_iff (some ref) event = audit_event_matches_image_iff ref event

pub passes-IsWanted :
    (m : Machine) (since : Option ℤ) (image : Option Reference) (event : Event)
    → IsNegatable since
    → (passes (record { since = cutoff m since; image = image }) event ≡ true)
      ↔ IsWanted m.now since image event
unfolding passes
passes-IsWanted m since image event small = (
  λ h. record {
    recent = (is_since_iff m since event small).0 (ground (arith, h));
    of_image = (is_of_image_iff image event).0 (ground (arith, h));
  },
  λ w.
      let recent : is_since (cutoff m since) event ≡ true =
        (is_since_iff m since event small).1 w.recent in
      let of_image : is_of_image image event ≡ true = (is_of_image_iff image event).1 w.of_image in
      rw (recent, of_image) refl,
)

-- Those of a list for which a predicate holds, in the same order.
pub data Filtered (P : Event → Type 0) : List Event → List Event → Type 0 where
  no_events : Filtered P [] []
  printed :
      {event : Event} {events shown : List Event}
      → P event
      → Filtered P events shown
      → Filtered P (event ∷ events) (event ∷ shown)
  skipped :
      {event : Event} {events shown : List Event}
      → ¬ P event
      → Filtered P events shown
      → Filtered P (event ∷ events) shown

pub keep-Filtered :
    (P : Event → Type 0) (p : Event → Bool)
    → ((event : Event) → (p event ≡ true) ↔ P event)
    → (events : List Event) → Filtered P events (keep p events)
unfolding keep
keep-Filtered P p h [] = no_events
keep-Filtered P p h (event ∷ events) = elim (Bool-cases (p event)) [
  | inl e ↦ rw e (printed ((h event).0 e) (keep-Filtered P p h events))
  | inr e ↦ rw e (skipped (λ w. absurd (cc (e, (h event).1 w))) (keep-Filtered P p h events))
]

-- The image that the arguments ask for, if any.
pub data Asks : Text → Option Reference → Type 0 where
  every_image : Asks [] none
  the_image :
      {image_ref : Text} {ref : Reference}
      → is_empty image_ref ≡ false
      → parse_reference image_ref ≡ ok ref
      → Asks image_ref (some ref)

pub image_filter-Asks :
    (m : Machine) {image_ref : Text} {image : Option Reference}
    → Asks image_ref image
    → image_filter m image_ref ≡ ok image
unfolding image_filter filter_of
image_filter-Asks m every_image = refl
image_filter-Asks m (the_image filled parses) = rw (filled, parses) refl
