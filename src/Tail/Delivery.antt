-- ===== src/Tail/Delivery.antt =====
-- What a subscriber of `TailHub`, packages/obs-collector/src/durable-objects/tail-hub.ts, receives of the
-- events that are published.
use obs_unified.Common.{
  ◌≡◌, ◌⊎◌, refl, sym, ap, subst, ◌∙◌, Bool, true, false, List, [], ◌∷◌, ◌++◌, inl, inr, flat_map,
  Bool-cases, if◌then◌else◌, In, Selects, ◌↔◌, ◌≢◌,
}
use mathlib.Core.List.{append-nil, append_assoc}
use obs_unified.Common.Text.{Text, text_eq, text_eq_iff}
use obs_unified.Tail.Hub.{
  TailEvent, Subscriber, Frame, connected, heartbeat, tail, Hub, has_kind, has_subscriber, wants,
  payload_for, send, send_all, broadcast,
}

-- All events that the writer of the id was given
unfoldable pub delivered : Text → List (Subscriber × Frame) → List TailEvent
unfolding text_eq
delivered id [] = []
delivered id ((sub, tail events) ∷ written) =
    let rest = delivered id written in if text_eq sub.id id then events ++ rest else rest
delivered id ((sub, connected) ∷ written) = delivered id written
delivered id ((sub, heartbeat) ∷ written) = delivered id written

-- No id stands twice.
unfoldable pub HasUniqueIds : List Subscriber → Type 0
HasUniqueIds [] = Unit
HasUniqueIds (sub ∷ subs) = (has_subscriber sub.id subs ≡ false) × HasUniqueIds subs

unfoldable pub wanted_by : Text → List Subscriber → List TailEvent → List TailEvent
unfolding text_eq
wanted_by id [] events = []
wanted_by id (sub ∷ subs) events =
    if text_eq sub.id id then payload_for sub events else wanted_by id subs events

delivered-append :
    (id : Text) (xs ys : List (Subscriber × Frame))
    → delivered id (xs ++ ys) ≡ delivered id xs ++ delivered id ys
unfolding delivered
delivered-append id [] ys = refl
delivered-append id ((sub, connected) ∷ xs) ys = delivered-append id xs ys
delivered-append id ((sub, heartbeat) ∷ xs) ys = delivered-append id xs ys
delivered-append id ((sub, tail events) ∷ xs) ys = elim (Bool-cases (text_eq sub.id id)) [
  | inl own ↦ rw own (
      ap (λ l. events ++ l) (delivered-append id xs ys)
      ∙ sym (append_assoc events (delivered id xs) (delivered id ys)))
  | inr other ↦ rw other (delivered-append id xs ys)
]

wanted_by_absent :
    (id : Text) (subs : List Subscriber) (events : List TailEvent)
    → has_subscriber id subs ≡ false
    → wanted_by id subs events ≡ []
unfolding wanted_by has_subscriber
wanted_by_absent id [] events h = refl
wanted_by_absent id (sub ∷ subs) events h = elim (Bool-cases (text_eq sub.id id)) [
  | inl own ↦ cc (rw own at h)
  | inr other ↦ rw other (wanted_by_absent id subs events (rw other at h))
]

wanted_by_none : (id : Text) (subs : List Subscriber) → wanted_by id subs [] ≡ []
unfolding wanted_by payload_for
wanted_by_none id [] = refl
wanted_by_none id (sub ∷ subs) = elim (Bool-cases (text_eq sub.id id)) [
  | inl own ↦ rw own refl
  | inr other ↦ rw other (wanted_by_none id subs)
]

payload_for-append :
    (sub : Subscriber) (xs ys : List TailEvent)
    → payload_for sub (xs ++ ys) ≡ payload_for sub xs ++ payload_for sub ys
unfolding payload_for
payload_for-append sub [] ys = refl
payload_for-append sub (e ∷ xs) ys = elim (Bool-cases (wants sub e)) [
  | inl yes_event ↦ rw yes_event (ap (λ l. e ∷ l) (payload_for-append sub xs ys))
  | inr no_event ↦ rw no_event (payload_for-append sub xs ys)
]

wanted_by-append :
    (id : Text) (subs : List Subscriber) (xs ys : List TailEvent)
    → wanted_by id subs (xs ++ ys) ≡ wanted_by id subs xs ++ wanted_by id subs ys
unfolding wanted_by
wanted_by-append id [] xs ys = refl
wanted_by-append id (sub ∷ subs) xs ys = elim (Bool-cases (text_eq sub.id id)) [
  | inl own ↦ rw own (payload_for-append sub xs ys)
  | inr other ↦ rw other (wanted_by-append id subs xs ys)
]

unfoldable pub publish_all : (Text → Bool) → Hub → List (List TailEvent) → Hub
unfolding broadcast
publish_all write_fails hub [] = hub
publish_all write_fails hub (events ∷ batches) =
    publish_all write_fails (broadcast write_fails events hub) batches

module _ (write_fails : Text → Bool) (works : (id : Text) → write_fails id ≡ false) where
  send-subscribers :
      (sub : Subscriber) (payload : List TailEvent) (hub : Hub)
      → (send write_fails sub payload hub).subscribers ≡ hub.subscribers
  unfolding send
  send-subscribers sub [] hub = refl
  send-subscribers sub (e ∷ payload) hub = rw (works sub.id) refl

  delivered-send :
      (id : Text) (sub : Subscriber) (payload : List TailEvent) (hub : Hub)
      → delivered id (send write_fails sub payload hub).written
        ≡ delivered id hub.written ++ (if text_eq sub.id id then payload else [])
  unfolding send delivered
  delivered-send id sub [] hub = elim (Bool-cases (text_eq sub.id id)) [
    | inl own ↦ rw own (sym (append-nil (delivered id hub.written)))
    | inr other ↦ rw other (sym (append-nil (delivered id hub.written)))
  ]
  delivered-send id sub (e ∷ payload) hub = rw (works sub.id) (
      delivered-append id hub.written _
      ∙ ap (λ l. delivered id hub.written ++ l) (one (Bool-cases (text_eq sub.id id))))
    where
      one :
          ((text_eq sub.id id ≡ true) ⊎ (text_eq sub.id id ≡ false))
          → delivered id ((sub, tail (e ∷ payload)) ∷ [])
            ≡ (if text_eq sub.id id then e ∷ payload else [])
      one (inl own) = rw own (append-nil (e ∷ payload))
      one (inr other) = rw other refl

  send_all-subscribers :
      (subs : List Subscriber) (events : List TailEvent) (hub : Hub)
      → (send_all write_fails subs events hub).subscribers ≡ hub.subscribers
  unfolding send_all
  send_all-subscribers [] events hub = refl
  send_all-subscribers (sub ∷ subs) events hub =
      send_all-subscribers subs events (send write_fails sub (payload_for sub events) hub)
      ∙ send-subscribers sub (payload_for sub events) hub

  delivered-send_all :
      (id : Text) (subs : List Subscriber) (events : List TailEvent) (hub : Hub)
      → HasUniqueIds subs
      → delivered id (send_all write_fails subs events hub).written
        ≡ delivered id hub.written ++ wanted_by id subs events
  unfolding send_all wanted_by HasUniqueIds
  delivered-send_all id [] events hub unique = sym (append-nil _)
  delivered-send_all id (sub ∷ subs) events hub (apart, unique) =
      let step = delivered-send id sub (payload_for sub events) hub in
      let rest =
        delivered-send_all id subs events (send write_fails sub (payload_for sub events) hub)
          unique in
      elim (Bool-cases (text_eq sub.id id)) [
        | inl own ↦
            let absent =
              subst (λ i. has_subscriber i subs ≡ false) ((text_eq_iff sub.id id).0 own) apart in
            rw own (
              rest
              ∙ ap
                  (λ l.
                    delivered id (send write_fails sub (payload_for sub events) hub).written ++ l)
                  (wanted_by_absent id subs events absent)
              ∙ append-nil _
              ∙ rw own at step)
        | inr other ↦
            rw other
              (rest ∙ ap (λ l. l ++ wanted_by id subs events) ((rw other at step) ∙ append-nil _))
      ]

  delivered_wanted :
      (id : Text) (hub : Hub) (batches : List (List TailEvent))
      → HasUniqueIds hub.subscribers
      → delivered id (publish_all write_fails hub batches).written
        ≡ delivered id hub.written ++ wanted_by id hub.subscribers (flat_map (λ b. b) batches)
  unfolding publish_all broadcast wanted_by
  delivered_wanted id hub [] unique =
      sym (append-nil _)
      ∙ ap (λ l. delivered id hub.written ++ l) (sym (wanted_by_none id hub.subscribers))
  delivered_wanted id hub (events ∷ batches) unique =
      let next = broadcast write_fails events hub in
      let same = send_all-subscribers hub.subscribers events hub in
      delivered_wanted id next batches (subst HasUniqueIds (sym same) unique)
      ∙ ap (λ subs. delivered id next.written ++ wanted_by id subs (flat_map (λ b. b) batches)) same
      ∙ ap (λ l. l ++ wanted_by id hub.subscribers (flat_map (λ b. b) batches))
          (delivered-send_all id hub.subscribers events hub unique)
      ∙ append_assoc (delivered id hub.written) (wanted_by id hub.subscribers events) _
      ∙ ap (λ l. delivered id hub.written ++ l)
          (sym (wanted_by-append id hub.subscribers events (flat_map (λ b. b) batches)))

-- An event of the subscriber's project and of one of its kinds
abbrev pub IsOwn : Subscriber → TailEvent → Type 0
IsOwn sub e = (e.project_id ≡ sub.project_id) × In e.kind sub.kinds

-- What the id's subscriber is given of the events: its own, and no other
unfoldable pub IsGiven : Text → List Subscriber → List TailEvent → List TailEvent → Type 0
IsGiven id [] events given = given ≡ []
IsGiven id (sub ∷ subs) events given =
    ((sub.id ≡ id) × Selects (IsOwn sub) events given)
    ⊎ ((sub.id ≢ id) × IsGiven id subs events given)

text_eq-false : (s t : Text) → text_eq s t ≡ false → s ≢ t
text_eq-false s t h e = absurd (cc (h, (text_eq_iff s t).1 e))

has_kind-In : (kind : Text) (kinds : List Text) → (has_kind kind kinds ≡ true) ↔ In kind kinds
unfolding has_kind
has_kind-In kind [] = (λ h. cc h, λ h. absurd h)
has_kind-In kind (k ∷ kinds) = elim (Bool-cases (text_eq k kind)) [
  | inl same ↦ (λ h. inl (sym ((text_eq_iff k kind).0 same)), λ h. rw same refl)
  | inr apart ↦ (
    λ h. inr ((has_kind-In kind kinds).0 (rw apart at h)),
    λ h. rw apart (elim h [
      | inl e ↦ absurd (text_eq-false k kind apart (sym e))
      | inr later ↦ (has_kind-In kind kinds).1 later
    ]),
  )
]

wants-IsOwn : (sub : Subscriber) (e : TailEvent) → (wants sub e ≡ true) ↔ IsOwn sub e
wants-IsOwn sub e = elim (Bool-cases (text_eq e.project_id sub.project_id)) [
  | inl same ↦ (
    λ h. (
      (text_eq_iff e.project_id sub.project_id).0 same,
      (has_kind-In e.kind sub.kinds).0 (rw same at h),
    ),
    λ own. rw same ((has_kind-In e.kind sub.kinds).1 own.1),
  )
  | inr apart ↦ (
    λ h. cc (rw apart at h),
    λ own. absurd (text_eq-false e.project_id sub.project_id apart own.0),
  )
]

payload_for-Selects :
    (sub : Subscriber) (events : List TailEvent)
    → Selects (IsOwn sub) events (payload_for sub events)
unfolding payload_for
payload_for-Selects sub [] = Selects.ended
payload_for-Selects sub (e ∷ events) = elim (Bool-cases (wants sub e)) [
  | inl own ↦ rw own (Selects.taken ((wants-IsOwn sub e).0 own) (payload_for-Selects sub events))
  | inr foreign ↦ rw foreign (
      Selects.left_out (λ own. absurd (cc (foreign, (wants-IsOwn sub e).1 own)))
        (payload_for-Selects sub events))
]

wanted_by-IsGiven :
    (id : Text) (subs : List Subscriber) (events : List TailEvent)
    → IsGiven id subs events (wanted_by id subs events)
unfolding wanted_by IsGiven
wanted_by-IsGiven id [] events = refl
wanted_by-IsGiven id (sub ∷ subs) events = elim (Bool-cases (text_eq sub.id id)) [
  | inl same ↦ rw same (inl ((text_eq_iff sub.id id).0 same, payload_for-Selects sub events))
  | inr apart ↦ rw apart (inr (text_eq-false sub.id id apart, wanted_by-IsGiven id subs events))
]

-- Where no write fails and no two subscribers share an id, batches that are published one after the
-- other reach every subscriber: behind what it had been given it is given exactly the events of its
-- project and of its kinds, each once and in order; an id without a subscriber is given none.
pub delivered-publish_all :
    (write_fails : Text → Bool)
    → ((id : Text) → write_fails id ≡ false)
    → (id : Text) (hub : Hub) (batches : List (List TailEvent)) → HasUniqueIds hub.subscribers
    → (given : List TailEvent) × (delivered id (publish_all write_fails hub batches).written
        ≡ delivered id hub.written ++ given)
      × IsGiven id hub.subscribers (flat_map (λ b. b) batches) given
delivered-publish_all write_fails works id hub batches unique =
    let events = flat_map (λ b. b) batches in
    (
      wanted_by id hub.subscribers events,
      delivered_wanted write_fails works id hub batches unique,
      wanted_by-IsGiven id hub.subscribers events,
    )
