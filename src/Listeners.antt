-- ===== src/Listeners.antt =====
-- The listeners on the brokers: mcp_server/server.py (`EventCollector`), dashboard/app.py (`Collector`) and scripts/demo.py
-- (`Feed`). A message is its topic and what `json.loads` gives for its payload; the locks are left out, since each handler
-- holds its own from its first access to its last.
pub mod Events
pub mod Seen
use edgesense_ai.Prelude.{
  ℕ, suc, ◌-◌, max, String, Bool, true, false, ◌&&◌, ◌||◌, not, Option, none, some, List, [], ◌∷◌,
  ◌++◌, Dict, lookup, insert, length, take, ltb, or_else, if◌then◌else◌,
}
use edgesense_ai.Python.Error.{
  Error, Result, ok, err, ◌>>=◌, ◌>>◌, or_raise, raise_if, attribute_error, type_error,
}
use edgesense_ai.Python.Number.{ℤ, pos, negsuc}
use edgesense_ai.Python.Json.{Json, Fields, get, put, as_object, is_text, is_hashable}
use edgesense_ai.Simulator.Topics.{is_reading_topic}

-- `appendleft` and `append` of a deque with a `maxlen`.
abbrev pub appendleft : {A : Type 0} → ℕ → A → List A → List A
appendleft maxlen x xs = take maxlen (x ∷ xs)

abbrev pub tail : {A : Type 0} → List A → List A
tail [] = []
tail (x ∷ xs) = xs

abbrev pub append : {A : Type 0} → ℕ → A → List A → List A
append maxlen x xs = let ys = xs ++ x ∷ [] in if ltb maxlen (length ys) then tail ys else ys

-- What `json.loads` makes of a payload: a value, a `JSONDecodeError`, or another exception, such as a
-- `UnicodeDecodeError` for bytes that are no text.
pub data Payload (F : Type 0) : Type 0 where
  parsed : Json F → Payload F
  not_json : Payload F
  failing : Error → Payload F

-- `xs[:limit]`, where a negative limit counts from the end.
abbrev pub slice_to : {A : Type 0} → ℤ → List A → List A
slice_to (pos n) xs = take n xs
slice_to (negsuc n) xs = take (length xs - suc n) xs

-- `max(1, limit)`
abbrev pub at_least_one : ℤ → ℤ
at_least_one (pos n) = pos (max 1 n)
at_least_one (negsuc n) = pos 1

module _ {F : Type 0} where
  -- `EventCollector._on_message`: a payload that is no JSON is dropped; another exception is not caught.
  unfoldable pub on_event : Payload F → List (Json F) → Result (List (Json F))
  on_event not_json events = ok events
  on_event (failing e) events = err e
  on_event (parsed payload) events = ok (appendleft 500 payload events)

  abbrev pub event_of : Json F → String → Result Bool
  event_of e machine_id = do
    d ← or_raise (as_object e) attribute_error
    ok (is_text (get d "machine_id") machine_id)

  abbrev pub keep_if : Bool → Json F → List (Json F) → List (Json F)
  keep_if true e rest = e ∷ rest
  keep_if false e rest = rest

  unfoldable pub events_of : String → List (Json F) → Result (List (Json F))
  events_of machine_id [] = ok []
  events_of machine_id (e ∷ es) = do
    hit ← event_of e machine_id
    rest ← events_of machine_id es
    ok (keep_if hit e rest)

  abbrev pub filtered : Option String → List (Json F) → Result (List (Json F))
  filtered none events = ok events
  filtered (some machine_id) events = events_of machine_id events

  unfoldable pub recent : ℤ → Option String → List (Json F) → Result (List (Json F))
  unfolding events_of
  recent limit machine_id events = do es ← filtered machine_id events; ok (slice_to limit es)

  -- `recent(max(1, limit), machine_id)`
  unfoldable pub list_recent_events : ℤ → Option String → List (Json F) → Result (List (Json F))
  unfolding recent
  list_recent_events limit machine_id events = recent (at_least_one limit) machine_id events

-- What the dashboard's collector and the demo's feed keep. `seen` holds the keys of the events of the feed.
pub record Collected (F : Type 0) : Type 0 where
  pub readings : List (Json F × List (Json F))
  pub events : List (Json F)
  pub seen : List (Json F × Json F)

-- `same` is Python's `==`.
module _ {F : Type 0} (same : Json F → Json F → Bool) where
  -- `d[key].append(…)` on a `defaultdict`, with what is appended to as a function.
  abbrev pub change_at :
      Json F
      → (List (Json F) → List (Json F))
      → List (Json F × List (Json F))
      → List (Json F × List (Json F))
  change_at key f [] = (key, f []) ∷ []
  change_at key f ((k, xs) ∷ d) = if same k key then (k, f xs) ∷ d else (k, xs) ∷ change_at key f d

  -- `payload.get(name, default)`, which must have a hash to be a key.
  abbrev pub key_part : Fields F → String → Json F → Result (Json F)
  key_part payload name default =
      let v = or_else (get payload name) default in
      raise_if (not (is_hashable (some v))) type_error >> ok v

  -- `Collector._on_message` of the dashboard, for a payload that is JSON.
  unfoldable pub on_dashboard : Bool → Json F → Collected F → Result (Collected F)
  on_dashboard true payload st = do
    d ← or_raise (as_object payload) attribute_error
    key ← key_part d "machine_id" (Json.str "?")
    ok (record st { readings = change_at key (append 600 payload) st.readings })
  on_dashboard false payload st = ok (record st { events = appendleft 200 payload st.events })

  unfoldable pub dashboard_message : String → Payload F → Collected F → Result (Collected F)
  unfolding is_reading_topic on_dashboard
  dashboard_message topic not_json st = ok st
  dashboard_message topic (failing e) st = err e
  dashboard_message topic (parsed payload) st = on_dashboard (is_reading_topic topic) payload st

  unfoldable pub key_in : Json F × Json F → List (Json F × Json F) → Bool
  key_in key [] = false
  key_in key (k ∷ ks) = (same k.0 key.0 && same k.1 key.1) || key_in key ks

  -- An event of the feed, with `now` for `time.time()`: one whose key was seen is dropped, since it came from the other broker.
  abbrev pub keep_event : Bool → Json F × Json F → Fields F → Json F → Collected F → Collected F
  keep_event true key payload now st = st
  keep_event false key payload now st = record st {
    seen = key ∷ st.seen;
    events = st.events ++ Json.obj (put payload "_arrival" now) ∷ [];
  }

  -- `Feed.on_message` of the demo, for a payload that is JSON.
  unfoldable pub on_feed : Bool → Json F → Json F → Collected F → Result (Collected F)
  unfolding key_in
  on_feed true payload now st = do
    d ← or_raise (as_object payload) attribute_error
    key ← key_part d "machine_id" (Json.str "?")
    ok (record st { readings = change_at key (λ xs. xs ++ payload ∷ []) st.readings })
  on_feed false payload now st = do
    d ← or_raise (as_object payload) attribute_error
    machine ← key_part d "machine_id" (Json.str "?")
    ts ← key_part d "ts" (Json.int (pos 0))
    ok (keep_event (key_in (machine, ts) st.seen) (machine, ts) d now st)

  unfoldable pub feed_message : String → Payload F → Json F → Collected F → Result (Collected F)
  unfolding is_reading_topic on_feed
  feed_message topic not_json now st = ok st
  feed_message topic (failing e) now st = err e
  feed_message topic (parsed payload) now st = on_feed (is_reading_topic topic) payload now st
