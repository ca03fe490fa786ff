-- ===== src/Tail/Laws.antt =====
-- The subscribers of `TailHub`, packages/obs-collector/src/durable-objects/tail-hub.ts, over any run of
-- requests, timers and clients that go away.
use obs_unified.Common.{
  ◌≤◌, ◌≡◌, refl, ap, Bool, true, false, List, [], ◌∷◌, ◌++◌, map, Option, none, some, inl, inr,
  length, length-append, leb, leb-false→lt, if_keeps, All, All-append, Bool-cases, Option-cases,
  arith,
}
use mathlib.Core.List.{map-append}
use obs_unified.Common.Text.{Text, text_eq, text_eq_iff}
use obs_unified.Common.Json.{Json, null, boolean, number, string, array, object}
use obs_unified.Tail.Hub.{
  max_subscribers, TailEvent, tail_events, Subscriber, Frame, connected, heartbeat, tail, Hub,
  new_hub, has_kind, has_subscriber, delete_subscriber, clear_interval, drop_subscriber, subscribe,
  wants, payload_for, send, send_all, broadcast, beat, publish, open_stream, Response, Event,
  post_publish, get_subscribe, other_request, timer, abort, handle, run,
}

-- An event of the subscriber's project and of a kind that it asked for
abbrev pub IsOwn : Subscriber → TailEvent → Type 0
IsOwn sub e = (e.project_id ≡ sub.project_id) × (has_kind e.kind sub.kinds ≡ true)

-- A subscriber is given only its own events.
abbrev pub IsWanted : Subscriber × Frame → Type 0
IsWanted (sub, connected) = Unit
IsWanted (sub, heartbeat) = Unit
IsWanted (sub, tail events) = All (IsOwn sub) events

abbrev pub id_of : Subscriber → Text
id_of sub = sub.id

pub record IsSound (hub : Hub) : Type 0 where
  pub room : length hub.subscribers ≤ max_subscribers
  pub timed : hub.intervals ≡ map id_of hub.subscribers
  pub wanted : All IsWanted hub.written

map-delete_subscriber :
    (id : Text) (subs : List Subscriber)
    → map id_of (delete_subscriber id subs) ≡ clear_interval id (map id_of subs)
unfolding delete_subscriber clear_interval
map-delete_subscriber id [] = refl
map-delete_subscriber id (sub ∷ subs) = elim (Bool-cases (text_eq sub.id id)) [
  | inl own ↦ rw own (map-delete_subscriber id subs)
  | inr other ↦ rw other (ap (λ l. sub.id ∷ l) (map-delete_subscriber id subs))
]

length-delete_subscriber-le :
    (id : Text) (subs : List Subscriber) → length (delete_subscriber id subs) ≤ length subs
unfolding delete_subscriber
length-delete_subscriber-le id [] = omega arith
length-delete_subscriber-le id (sub ∷ subs) = ground (arith, length-delete_subscriber-le id subs)

drop-IsSound : (id : Text) (hub : Hub) → IsSound hub → IsSound (drop_subscriber id hub)
unfolding drop_subscriber
drop-IsSound id hub s = elim (Bool-cases (has_subscriber id hub.subscribers)) [
  | inr absent ↦ rw absent s
  | inl there ↦ rw there (record {
    room = omega (arith, s.room, length-delete_subscriber-le id hub.subscribers);
    timed = rw (s.timed, map-delete_subscriber id hub.subscribers) refl;
    wanted = s.wanted;
  })
]

write-IsSound :
    (hub : Hub) (sub : Subscriber) (frame : Frame)
    → IsWanted (sub, frame)
    → IsSound hub
    → IsSound (record hub { written = hub.written ++ (sub, frame) ∷ [] })
write-IsSound hub sub frame ok s = record {
  room = s.room;
  timed = s.timed;
  wanted = All-append IsWanted hub.written _ s.wanted (ok, tt);
}

wants-IsOwn : (sub : Subscriber) (e : TailEvent) → wants sub e ≡ true → IsOwn sub e
wants-IsOwn sub e h = elim (Bool-cases (text_eq e.project_id sub.project_id)) [
  | inl same ↦ ((text_eq_iff e.project_id sub.project_id).0 same, rw same at h)
  | inr other ↦ cc (rw other at h)
]

payload_for-wanted :
    (sub : Subscriber) (events : List TailEvent) → All (IsOwn sub) (payload_for sub events)
unfolding payload_for
payload_for-wanted sub [] = tt
payload_for-wanted sub (e ∷ events) = elim (Bool-cases (wants sub e)) [
  | inl yes_event ↦ rw yes_event (wants-IsOwn sub e yes_event, payload_for-wanted sub events)
  | inr no_event ↦ rw no_event (payload_for-wanted sub events)
]

module _ (write_fails : Text → Bool) where
  send-IsSound :
      (sub : Subscriber) (payload : List TailEvent) (hub : Hub)
      → All (IsOwn sub) payload
      → IsSound hub
      → IsSound (send write_fails sub payload hub)
  unfolding send
  send-IsSound sub [] hub ok s = s
  send-IsSound sub (e ∷ payload) hub ok s =
      let s' = write-IsSound hub sub (tail (e ∷ payload)) ok s in
      elim (Bool-cases (write_fails sub.id)) [
        | inl fails ↦ rw fails (drop-IsSound sub.id _ s')
        | inr works ↦ rw works s'
      ]

  send_all-IsSound :
      (subs : List Subscriber) (events : List TailEvent) (hub : Hub)
      → IsSound hub
      → IsSound (send_all write_fails subs events hub)
  unfolding send_all
  send_all-IsSound [] events hub s = s
  send_all-IsSound (sub ∷ subs) events hub s =
      send_all-IsSound subs events (send write_fails sub (payload_for sub events) hub)
        (send-IsSound sub (payload_for sub events) hub (payload_for-wanted sub events) s)

  beat-IsSound :
      (id : Text) (subs : List Subscriber) (hub : Hub)
      → IsSound hub
      → IsSound (beat write_fails id subs hub)
  unfolding beat
  beat-IsSound id [] hub s = s
  beat-IsSound id (sub ∷ subs) hub s =
      let s' = write-IsSound hub sub heartbeat tt s in
      elim (Bool-cases (text_eq sub.id id)) [
        | inr other ↦ rw other (beat-IsSound id subs hub s)
        | inl own ↦ elim (Bool-cases (write_fails id)) [
          | inl fails ↦ rw (own, fails) (drop-IsSound id _ s')
          | inr works ↦ rw (own, works) s'
        ]
      ]

  publish-IsSound :
      (body : Option Json) (hub : Hub) → IsSound hub → IsSound (publish write_fails body hub).0
  unfolding publish broadcast
  publish-IsSound none hub s = s
  publish-IsSound (some null) hub s = s
  publish-IsSound (some (boolean b)) hub s = s
  publish-IsSound (some (number n)) hub s = s
  publish-IsSound (some (string t)) hub s = s
  publish-IsSound (some (object fields)) hub s = s
  publish-IsSound (some (array items)) hub s = elim (Option-cases (tail_events items)) [
    | inl bad ↦ rw (bad, publish) s
    | inr (events, good) ↦ rw (good, publish) (send_all-IsSound hub.subscribers events hub s)
  ]

subscribe-IsSound :
    (project_id : Text) (kinds : List Text) (aborted : Bool) (id : Text) (hub : Hub)
    → IsSound hub
    → IsSound (subscribe project_id kinds aborted id hub).0
unfolding subscribe
subscribe-IsSound project_id kinds true id hub s = s
subscribe-IsSound project_id kinds false id hub s =
    elim (Bool-cases (leb max_subscribers (length hub.subscribers))) [
      | inl full ↦ rw full s
      | inr free ↦ rw free (record {
        room = omega (
          arith,
          length-append hub.subscribers
              (record { id = id; project_id = project_id; kinds = kinds } ∷ []),
          leb-false→lt max_subscribers (length hub.subscribers) free,
        );
        timed = rw (s.timed, map-append) refl;
        wanted = All-append IsWanted hub.written _ s.wanted (tt, tt);
      })
    ]

open_stream-IsSound :
    (project_param kinds_param : Option Text) (aborted : Bool) (id : Text) (hub : Hub)
    → IsSound hub
    → IsSound (open_stream project_param kinds_param aborted id hub).0
unfolding open_stream
open_stream-IsSound project_param kinds_param aborted id hub s =
    if_keeps (λ (r : Hub × Response). IsSound r.0) _ _ _
      (if_keeps (λ (r : Hub × Response). IsSound r.0) _ _ _ (subscribe-IsSound _ _ aborted id hub s)
        s)
      s

handle-IsSound :
    (write_fails : Text → Bool) (event : Event) (hub : Hub)
    → IsSound hub
    → IsSound (handle write_fails event hub).0
unfolding handle
handle-IsSound write_fails (post_publish body) hub s = publish-IsSound write_fails body hub s
handle-IsSound write_fails (get_subscribe project_id kinds aborted id) hub s =
    open_stream-IsSound project_id kinds aborted id hub s
handle-IsSound write_fails other_request hub s = s
handle-IsSound write_fails (timer id) hub s = beat-IsSound write_fails id hub.subscribers hub s
handle-IsSound write_fails (abort id) hub s = drop-IsSound id hub s

run_keeps :
    (hub : Hub) (events : List ((Text → Bool) × Event)) → IsSound hub → IsSound (run hub events)
unfolding run
run_keeps hub [] s = s
run_keeps hub ((write_fails, event) ∷ events) s =
    run_keeps (handle write_fails event hub).0 events (handle-IsSound write_fails event hub s)

-- Whatever happens to a new hub, it has at most 200 subscribers, exactly the heartbeats of its
-- subscribers run, and no writer was ever given an event of another project than its subscriber's or of
-- a kind that was not asked for.
pub run-IsSound : (events : List ((Text → Bool) × Event)) → IsSound (run new_hub events)
run-IsSound events =
    run_keeps new_hub events (record { room = omega arith; timed = refl; wanted = tt })
