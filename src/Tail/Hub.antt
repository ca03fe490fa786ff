-- ===== src/Tail/Hub.antt =====
-- `TailHub` of packages/obs-collector/src/durable-objects/tail-hub.ts. A writer's answer is an argument:
-- whether a write to the subscriber fails. A broadcast runs without another request between its writes.
-- A new subscriber's id, from `crypto.randomUUID`, is taken to be new: `Map.set` would replace an old one.
use obs_unified.Common.{
  ℕ, Bool, true, false, ◌&&◌, ◌||◌, List, [], ◌∷◌, ◌++◌, map, Option, none, some, length, leb, ◌==◌,
  if◌then◌else◌,
}
use obs_unified.Common.Text.{Text, lit, text_eq, trim, split_on, drop_empty}
use obs_unified.Common.Json.{Json, string, array, object, Items, nil, item, get_field}

abbrev pub max_subscribers : ℕ
max_subscribers = 200

abbrev pub is_project_char : ℕ → Bool
is_project_char c =
    (leb b'A' c && leb c b'Z')
    || (leb b'a' c && leb c b'z')
    || (leb b'0' c && leb c b'9')
    || c == b'_'
    || c == b'-'

unfoldable pub all_project_chars : Text → Bool
all_project_chars [] = true
all_project_chars (c ∷ s) = is_project_char c && all_project_chars s

-- `/^[A-Za-z0-9_-]{1,128}$/`
unfoldable pub is_project_id : Text → Bool
unfolding all_project_chars
is_project_id s = leb 1 (length s) && leb (length s) 128 && all_project_chars s

abbrev pub is_kind : Text → Bool
is_kind kind = text_eq kind (lit "span") || text_eq kind (lit "log")

-- A value that has been found to be a `TailEvent`, with the two fields that are read of it
pub record TailEvent : Type 0 where
  pub kind : Text
  pub project_id : Text
  pub value : Json

-- The four fields of a candidate
unfoldable pub check_event :
    Json → Option Json → Option Json → Option Json → Option Json → Option TailEvent
unfolding is_project_id text_eq
check_event value (some (string kind)) (some (string project_id)) (some (object row))
      (some (string t)) =
    if is_kind kind && is_project_id project_id && leb 1 (length t)
    then some (record { kind = kind; project_id = project_id; value = value })
    else none
check_event value _ _ _ _ = none

-- `isTailEvent`
unfoldable pub tail_event : Json → Option TailEvent
unfolding check_event get_field
tail_event (object fields) =
    check_event (object fields) (get_field (lit "kind") fields) (get_field (lit "projectId") fields)
      (get_field (lit "row") fields) (get_field (lit "t") fields)
tail_event _ = none

-- `events.every(isTailEvent)`: the events, or none where one is not
unfoldable pub tail_events : Items → Option (List TailEvent)
unfolding tail_event
tail_events nil = some []
tail_events (item value items) = elim (tail_event value) [
  | none ↦ none
  | some event ↦ elim (tail_events items) [ none ↦ none | some events ↦ some (event ∷ events) ]
]

pub record Subscriber : Type 0 where
  pub id : Text
  pub project_id : Text
  pub kinds : List Text

pub data Frame : Type 0 where
  connected heartbeat : Frame
  tail : List TailEvent → Frame

-- `intervals` holds the ids whose heartbeat runs; `written` is what the writers were given, `closed` the
-- ids whose writer was closed.
pub record Hub : Type 0 where
  pub subscribers : List Subscriber
  pub intervals : List Text
  pub written : List (Subscriber × Frame)
  pub closed : List Text

abbrev pub new_hub : Hub
new_hub = record { subscribers = []; intervals = []; written = []; closed = [] }

pub data Response : Type 0 where
  no_content bad_request bad_project_id bad_kinds too_many client_closed not_found : Response
  stream : Text → Response

unfoldable pub has_kind : Text → List Text → Bool
unfolding text_eq
has_kind kind [] = false
has_kind kind (k ∷ kinds) = text_eq k kind || has_kind kind kinds

unfoldable pub all_kinds : List Text → Bool
unfolding text_eq
all_kinds [] = true
all_kinds (kind ∷ kinds) = is_kind kind && all_kinds kinds

unfoldable pub has_subscriber : Text → List Subscriber → Bool
unfolding text_eq
has_subscriber id [] = false
has_subscriber id (sub ∷ subs) = text_eq sub.id id || has_subscriber id subs

unfoldable pub delete_subscriber : Text → List Subscriber → List Subscriber
unfolding text_eq
delete_subscriber id [] = []
delete_subscriber id (sub ∷ subs) =
    let rest = delete_subscriber id subs in if text_eq sub.id id then rest else sub ∷ rest

unfoldable pub clear_interval : Text → List Text → List Text
unfolding text_eq
clear_interval id [] = []
clear_interval id (other ∷ ids) =
    let rest = clear_interval id ids in if text_eq other id then rest else other ∷ rest

unfoldable pub drop_subscriber : Text → Hub → Hub
unfolding has_subscriber delete_subscriber clear_interval
drop_subscriber id hub =
    if has_subscriber id hub.subscribers
    then record hub {
      subscribers = delete_subscriber id hub.subscribers;
      intervals = clear_interval id hub.intervals;
      closed = hub.closed ++ id ∷ [];
    }
    else hub

-- `aborted` is `req.signal.aborted`; `id` is what `crypto.randomUUID` draws.
unfoldable pub subscribe : Text → List Text → Bool → Text → Hub → Hub × Response
subscribe project_id kinds aborted id hub =
    if aborted
    then (hub, client_closed)
    else if leb max_subscribers (length hub.subscribers)
    then (hub, too_many)
    else let sub : Subscriber = record { id = id; project_id = project_id; kinds = kinds } in
      (
        record hub {
          subscribers = hub.subscribers ++ sub ∷ [];
          intervals = hub.intervals ++ id ∷ [];
          written = hub.written ++ (sub, connected) ∷ [];
        },
        stream id,
      )

abbrev pub wants : Subscriber → TailEvent → Bool
wants sub e = text_eq e.project_id sub.project_id && has_kind e.kind sub.kinds

unfoldable pub payload_for : Subscriber → List TailEvent → List TailEvent
unfolding has_kind
payload_for sub [] = []
payload_for sub (e ∷ events) =
    if wants sub e then e ∷ payload_for sub events else payload_for sub events

module _ (write_fails : Text → Bool) where
  unfoldable pub send : Subscriber → List TailEvent → Hub → Hub
  unfolding drop_subscriber
  send sub [] hub = hub
  send sub (e ∷ payload) hub =
      let hub' = record hub { written = hub.written ++ (sub, tail (e ∷ payload)) ∷ [] } in
      if write_fails sub.id then drop_subscriber sub.id hub' else hub'

  unfoldable pub send_all : List Subscriber → List TailEvent → Hub → Hub
  unfolding send payload_for
  send_all [] events hub = hub
  send_all (sub ∷ subs) events hub = send_all subs events (send sub (payload_for sub events) hub)

  -- An empty batch sends nothing, as its payloads are empty.
  unfoldable pub broadcast : List TailEvent → Hub → Hub
  unfolding send_all
  broadcast events hub = send_all hub.subscribers events hub

  -- The timer of a subscriber fires.
  unfoldable pub beat : Text → List Subscriber → Hub → Hub
  unfolding drop_subscriber
  beat id [] hub = hub
  beat id (sub ∷ subs) hub =
      if text_eq sub.id id
      then (let hub' = record hub { written = hub.written ++ (sub, heartbeat) ∷ [] } in
          if write_fails id then drop_subscriber id hub' else hub')
      else beat id subs hub

-- `req.json()` gives none where it throws.
unfoldable pub publish : (Text → Bool) → Option Json → Hub → Hub × Response
unfolding broadcast tail_events
publish write_fails (some (array items)) hub = elim (tail_events items) [
  | none ↦ (hub, bad_request)
  | some events ↦ (broadcast write_fails events hub, no_content)
]
publish write_fails _ hub = (hub, bad_request)

abbrev pub or_text : Option Text → Text → Text
or_text none default = default
or_text (some s) default = s

unfoldable pub open_stream : Option Text → Option Text → Bool → Text → Hub → Hub × Response
unfolding subscribe is_project_id all_kinds drop_empty split_on trim
open_stream project_param kinds_param aborted id hub =
    let project_id = or_text project_param (lit "default") in
    let kinds = drop_empty (map trim (split_on b',' (or_text kinds_param (lit "span,log")))) in
    if is_project_id project_id
    then (if all_kinds kinds then subscribe project_id kinds aborted id hub else (hub, bad_kinds))
    else (hub, bad_project_id)

-- What happens to a hub: a request, a timer, or a client that goes away
pub data Event : Type 0 where
  post_publish : Option Json → Event
  get_subscribe : Option Text → Option Text → Bool → Text → Event
  other_request : Event
  timer : Text → Event
  abort : Text → Event

unfoldable pub handle : (Text → Bool) → Event → Hub → Hub × Response
unfolding publish open_stream beat drop_subscriber
handle write_fails (post_publish body) hub = publish write_fails body hub
handle write_fails (get_subscribe project_id kinds aborted id) hub =
    open_stream project_id kinds aborted id hub
handle write_fails other_request hub = (hub, not_found)
handle write_fails (timer id) hub = (beat write_fails id hub.subscribers hub, no_content)
handle write_fails (abort id) hub = (drop_subscriber id hub, no_content)

-- Each event comes with the answers of the writers at that time.
unfoldable pub run : Hub → List ((Text → Bool) × Event) → Hub
unfolding handle
run hub [] = hub
run hub ((write_fails, event) ∷ events) = run (handle write_fails event hub).0 events
