-- ===== src/Tests/Listeners.antt =====
-- Events on two brokers, and payloads that are no JSON or no object.
use edgesense_ai.Prelude.{
  ℕ, ◌≡◌, refl, min, max, String, Bool, false, some, List, [], ◌∷◌, take, length, All, str_eq,
  arith,
}
use edgesense_ai.Python.Error.{err, attribute_error, value_error}
use edgesense_ai.Python.Json.{Json, field, end}
use edgesense_ai.Python.Number.{pos, negsuc, to_nat}
use edgesense_ai.Listeners.{
  Payload, parsed, not_json, failing, Collected, list_recent_events, on_event,
}
use edgesense_ai.Listeners.Events.{
  collect, newest_first, unless, first_failure, collect_lem, IsOf, count_of,
  list_recent_events_bounds, other_payload_raises,
}
use edgesense_ai.Listeners.Seen.{feed_messages, IsFeed, feed_messages-IsFeed}

abbrev event : String → Json ℕ
event m = Json.obj (field "machine_id" (Json.str m) (field "ts" (Json.str "12") end))

-- A test of texts; the other values are not compared here.
abbrev same : Json ℕ → Json ℕ → Bool
same (Json.str s) (Json.str t) = str_eq s t
same v w = false

abbrev messages : List (Payload ℕ)
messages = parsed (event "m1") ∷ not_json ∷ parsed (event "m2") ∷ []

collect_lem_example :
    collect messages [] ≡ unless (first_failure messages) (take 500 (newest_first messages []))
collect_lem_example = collect_lem messages

collect_stops : collect (failing value_error ∷ messages) [] ≡ err value_error
unfolding collect on_event
collect_stops = refl

list_recent_events_bounds_example :
    All (IsOf "m2") (event "m2" ∷ [])
    × (length (event "m2" ∷ [])
        ≡ min
            (max 1 (to_nat (negsuc 4)))
            (count_of "m2" (event "m2" ∷ event "m1" ∷ event "m2" ∷ [])))
unfolding list_recent_events
list_recent_events_bounds_example =
    list_recent_events_bounds (negsuc 4) "m2" (event "m2" ∷ event "m1" ∷ event "m2" ∷ [])
      (event "m2" ∷ []) refl

abbrev after_number : List (Json ℕ)
after_number = event "m1" ∷ Json.int (pos 3) ∷ event "m2" ∷ []

other_payload_raises_example :
    list_recent_events (pos 5) (some "m2") after_number ≡ err attribute_error
unfolding collect on_event
other_payload_raises_example =
    other_payload_raises (pos 5) "m2" (Json.int (pos 3)) (parsed (event "m1") ∷ not_json ∷ [])
      (event "m2" ∷ []) after_number refl (omega arith) refl

abbrev empty_feed : Collected ℕ
empty_feed = record { readings = []; events = []; seen = [] }

abbrev traffic : List (String × Payload ℕ × Json ℕ)
traffic =
    ("es/acme/default/m1/events", parsed (event "m1"), Json.int (pos 1))
    ∷ ("es/acme/default/m1/events", parsed (event "m1"), Json.int (pos 2))
    ∷ ("es/acme/default/m1/sensors", parsed (event "m1"), Json.int (pos 2))
    ∷ []

feed_messages-IsFeed_example : IsFeed same (feed_messages same traffic empty_feed)
feed_messages-IsFeed_example = feed_messages-IsFeed same traffic empty_feed (tt, refl)
