-- ===== src/Listeners/Seen.antt =====
-- The feed of the demo keeps one event for each key.
use edgesense_ai.Prelude.{
  ◌≡◌, refl, sym, ◌∙◌, String, Bool, true, false, List, [], ◌∷◌, ◌++◌, or_else,
}
use edgesense_ai.Python.Error.{
  Result, ok, err, bind_ok, ok_inj, or_raise, raise_if_ok, attribute_error, type_error,
}
use edgesense_ai.Python.Number.{pos}
use edgesense_ai.Python.Json.{Json, Fields, get, put, as_object}
use edgesense_ai.Python.Json.Lookup.{get-put_ne}
use edgesense_ai.Simulator.Topics.{is_reading_topic}
use edgesense_ai.Listeners.{
  Payload, parsed, not_json, failing, Collected, key_in, key_part, keep_event, on_feed,
  feed_message,
}

-- The key of an event: its machine and its time.
abbrev pub event_key : {F : Type 0} → Fields F → Json F × Json F
event_key d = (or_else (get d "machine_id") (Json.str "?"), or_else (get d "ts") (Json.int (pos 0)))

abbrev arrival : String
arrival = "_arrival"

module _ {F : Type 0} (same : Json F → Json F → Bool) where
  -- No key is there twice.
  abbrev pub Distinct : List (Json F × Json F) → Type 0
  Distinct [] = Unit
  Distinct (k ∷ ks) = (key_in same k ks ≡ false) × Distinct ks

  -- The events have these keys, the last event the first key.
  abbrev pub Keyed : List (Json F × Json F) → List (Json F) → Type 0
  Keyed [] events = events ≡ []
  Keyed (k ∷ ks) events =
      (older : List (Json F)) × (d : Fields F) × (events ≡ older ++ Json.obj d ∷ [])
      × (event_key d ≡ k)
      × Keyed ks older

  abbrev pub IsFeed : Collected F → Type 0
  IsFeed st = Distinct st.seen × Keyed st.seen st.events

  event_key-put : (d : Fields F) (v : Json F) → event_key (put d arrival v) ≡ event_key d
  event_key-put d v =
      rw (get-put_ne d arrival v "machine_id" refl, get-put_ne d arrival v "ts" refl) refl

  keep_event-IsFeed :
      (b : Bool) (key : Json F × Json F) (d : Fields F) (now : Json F) (st : Collected F)
      → event_key d ≡ key
      → key_in same key st.seen ≡ b
      → IsFeed st
      → IsFeed (keep_event same b key d now st)
  keep_event-IsFeed true key d now st e h inv = inv
  keep_event-IsFeed false key d now st e h (distinct, keyed) =
      ((h, distinct), (st.events, put d arrival now, refl, event_key-put d now ∙ e, keyed))

  key_part_ok :
      (d : Fields F) (name : String) (default v : Json F)
      → key_part same d name default ≡ ok v
      → or_else (get d name) default ≡ v
  key_part_ok d name default v h = ok_inj (raise_if_ok _ type_error _ h).1

  on_feed-IsFeed :
      (reading : Bool) (payload now : Json F) (st after : Collected F)
      → on_feed same reading payload now st ≡ ok after
      → IsFeed st
      → IsFeed after
  unfolding on_feed
  on_feed-IsFeed true payload now st after h inv =
      let (d, _, h1) = bind_ok (or_raise (as_object payload) attribute_error) _ h in
      let (machine, _, h2) = bind_ok (key_part same d "machine_id" (Json.str "?")) _ h1 in
      rw (sym (ok_inj h2)) inv
  on_feed-IsFeed false payload now st after h inv =
      let (d, _, h1) = bind_ok (or_raise (as_object payload) attribute_error) _ h in
      let (machine, m, h2) = bind_ok (key_part same d "machine_id" (Json.str "?")) _ h1 in
      let (ts, t, h3) = bind_ok (key_part same d "ts" (Json.int (pos 0))) _ h2 in
      let key : event_key d ≡ (machine, ts) =
        rw
          (
            key_part_ok d "machine_id" (Json.str "?") machine m,
            key_part_ok d "ts" (Json.int (pos 0)) ts t,
          )
          refl in
      rw (sym (ok_inj h3))
        (keep_event-IsFeed (key_in same (machine, ts) st.seen) (machine, ts) d now st key refl inv)

  feed_message-IsFeed :
      (topic : String) (payload : Payload F) (now : Json F) (st after : Collected F)
      → feed_message same topic payload now st ≡ ok after
      → IsFeed st
      → IsFeed after
  unfolding feed_message
  feed_message-IsFeed topic (failing e) now st after h inv = cc
  feed_message-IsFeed topic not_json now st after h inv = rw (sym (ok_inj h)) inv
  feed_message-IsFeed topic (parsed payload) now st after h inv =
      on_feed-IsFeed (is_reading_topic topic) payload now st after h inv

  -- The messages in the order of their arrival. A message that raises changes nothing, and the next one is handled.
  abbrev kept : Collected F → Result (Collected F) → Collected F
  kept st (ok after) = after
  kept st (err e) = st

  unfoldable pub feed_messages : List (String × Payload F × Json F) → Collected F → Collected F
  unfolding feed_message
  feed_messages [] st = st
  feed_messages ((topic, payload, now) ∷ ms) st =
      feed_messages ms (kept st (feed_message same topic payload now st))

  kept-IsFeed :
      (st : Collected F) (r : Result (Collected F))
      → ((after : Collected F) → r ≡ ok after → IsFeed after)
      → IsFeed st
      → IsFeed (kept st r)
  kept-IsFeed st (ok after) h inv = h after refl
  kept-IsFeed st (err e) h inv = inv

  -- From a feed in which no key is there twice and each event has its own key, the feed after any messages is
  -- such a feed again. `same` is the equality of Python's values.
  pub feed_messages-IsFeed :
      (ms : List (String × Payload F × Json F)) (st : Collected F)
      → IsFeed st
      → IsFeed (feed_messages ms st)
  unfolding feed_messages
  feed_messages-IsFeed [] st inv = inv
  feed_messages-IsFeed ((topic, payload, now) ∷ ms) st inv = feed_messages-IsFeed ms _ (
      kept-IsFeed st (feed_message same topic payload now st)
        (λ after h. feed_message-IsFeed topic payload now st after h inv) inv)
