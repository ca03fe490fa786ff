-- ===== src/Tail/Tests.antt =====
-- The theorems about packages/obs-collector/src/durable-objects/tail-hub.ts at concrete inputs, and runs
-- of it.
use obs_unified.Common.{◌≡◌, refl, Bool, true, false, List, [], ◌∷◌, ◌++◌, none, some, flat_map}
use obs_unified.Common.Text.{Text, lit, text_eq, is_space, trim, trim_end, split_on, drop_empty}
use obs_unified.Common.Json.{Json, string, array, object, nil, item, end, field, get_field}
use obs_unified.Tail.Hub.{
  TailEvent, Hub, new_hub, bad_request, bad_kinds, all_project_chars, is_project_id, check_event,
  tail_event, tail_events, has_kind, all_kinds, has_subscriber, delete_subscriber, clear_interval,
  drop_subscriber, subscribe, payload_for, send, send_all, broadcast, beat, publish, open_stream,
  Event, post_publish, get_subscribe, timer, handle, run,
}
use obs_unified.Tail.Laws.{IsSound, run-IsSound}
use obs_unified.Tail.Delivery.{
  delivered, HasUniqueIds, wanted_by, publish_all, IsGiven, delivered-publish_all,
}

program : Unit {0}
unfolding text_eq is_space trim trim_end split_on drop_empty get_field all_project_chars
    is_project_id check_event tail_event tail_events has_kind all_kinds has_subscriber
    delete_subscriber clear_interval drop_subscriber subscribe payload_for send send_all broadcast
    beat publish open_stream handle run delivered HasUniqueIds wanted_by publish_all
program = tt

abbrev all_work : Text → Bool
all_work id = false

abbrev event_of : Text → Text → Json
event_of project_id kind = object (
    field (lit "kind") (string kind) (
      field (lit "projectId") (string project_id)
        (field (lit "row") (object end) (field (lit "t") (string (lit "now")) end))))

abbrev log_of : Text → TailEvent
log_of project_id = record {
  kind = lit "log";
  project_id = project_id;
  value = event_of project_id (lit "log");
}

abbrev events : List ((Text → Bool) × Event)
events =
    (all_work, get_subscribe (some (lit "shop")) (some (lit " log ,")) false (lit "a"))
    ∷ (all_work, get_subscribe none none false (lit "b"))
    ∷ (
      all_work,
      post_publish (
          some (
            array (
              item (event_of (lit "shop") (lit "log"))
                (item (event_of (lit "shop") (lit "span")) nil)))),
    )
    ∷ []

abbrev two : Hub
two = run new_hub events

only_logs : delivered (lit "a") two.written ≡ log_of (lit "shop") ∷ []
unfolding program
only_logs = refl

other_project : delivered (lit "b") two.written ≡ []
unfolding program
other_project = refl

-- A heartbeat that fails drops the subscriber and stops its timer.
dropped : (run two (((λ id. true), timer (lit "a")) ∷ [])).intervals ≡ lit "b" ∷ []
unfolding program
dropped = refl

unknown_kind :
    (handle all_work (get_subscribe none (some (lit "metric")) false (lit "c")) two).1 ≡ bad_kinds
unfolding program
unknown_kind = refl

no_row : (handle all_work (post_publish (some (array (item (object end) nil)))) two).1 ≡ bad_request
unfolding program
no_row = refl

run-IsSound_example : IsSound (run new_hub events)
run-IsSound_example = run-IsSound events

two-HasUniqueIds : HasUniqueIds two.subscribers
unfolding program
two-HasUniqueIds = (refl, (refl, tt))

abbrev batches : List (List TailEvent)
batches = (log_of (lit "shop") ∷ []) ∷ (log_of (lit "default") ∷ []) ∷ []

delivered-publish_all_example :
    (given : List TailEvent) × (delivered (lit "a") (publish_all all_work two batches).written
      ≡ delivered (lit "a") two.written ++ given)
    × IsGiven (lit "a") two.subscribers (flat_map (λ b. b) batches) given
delivered-publish_all_example =
    delivered-publish_all all_work (λ id. refl) (lit "a") two batches two-HasUniqueIds
