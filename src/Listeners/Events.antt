-- ===== src/Listeners/Events.antt =====
-- What the command server's collector keeps and returns.
use edgesense_ai.Prelude.{
  ◌≡◌, Option, refl, sym, ap, ◌∙◌, ◌≤◌, ◌<◌, ◌+◌, max, min, ℕ, zero, suc, String, Bool, true, false,
  none, some, List, [], ◌∷◌, ◌++◌, length, take, length-take, All, arith, Option-cases, inl, inr,
}
use edgesense_ai.Python.Error.{Error, Result, ok, err, ◌>>=◌, bind_ok, ok_inj, attribute_error}
use edgesense_ai.Python.Number.{ℤ, pos, negsuc, to_nat}
use edgesense_ai.Python.Json.{Json, as_object}
use edgesense_ai.Listeners.{
  Payload, parsed, not_json, failing, slice_to, at_least_one, on_event, event_of, keep_if,
  events_of, recent, list_recent_events,
}

take-take : {A : Type 0} (n : ℕ) (x : A) (xs : List A) → take n (x ∷ take n xs) ≡ take n (x ∷ xs)
take-take zero x xs = refl
take-take (suc zero) x xs = refl
take-take (suc (suc n)) x [] = refl
take-take (suc (suc n)) x (y ∷ ys) = ap (λ l. x ∷ l) (take-take (suc n) y ys)

abbrev counted : Result Bool → ℕ → ℕ
counted (ok true) n = suc n
counted _ n = n

abbrev pub unless : {A : Type 0} → Option Error → A → Result A
unless none a = ok a
unless (some e) a = err e

module _ {F : Type 0} where
  -- The messages in the order of their arrival, and what the collector has after them, up to the first that raises.
  unfoldable pub collect : List (Payload F) → List (Json F) → Result (List (Json F))
  collect [] events = ok events
  collect (m ∷ ms) events = on_event m events >>= collect ms

  -- The reference: all payloads that are JSON, the newest first.
  unfoldable pub newest_first : List (Payload F) → List (Json F) → List (Json F)
  newest_first [] acc = acc
  newest_first (not_json ∷ ms) acc = newest_first ms acc
  newest_first (failing x ∷ ms) acc = newest_first ms acc
  newest_first (parsed e ∷ ms) acc = newest_first ms (e ∷ acc)

  -- The exception of the first payload that raises one which the handler does not catch.
  abbrev pub first_failure : List (Payload F) → Option Error
  first_failure [] = none
  first_failure (not_json ∷ ms) = first_failure ms
  first_failure (parsed e ∷ ms) = first_failure ms
  first_failure (failing e ∷ ms) = some e

  collect-from :
      (ms : List (Payload F)) (acc : List (Json F))
      → collect ms (take 500 acc) ≡ unless (first_failure ms) (take 500 (newest_first ms acc))
  unfolding collect newest_first on_event
  collect-from [] acc = refl
  collect-from (not_json ∷ ms) acc = collect-from ms acc
  collect-from (failing e ∷ ms) acc = refl
  collect-from (parsed e ∷ ms) acc =
      ap (collect ms) (take-take 500 e acc) ∙ collect-from ms (e ∷ acc)

  -- After any messages whose payloads are JSON or no JSON, the collector keeps the newest 500 of those that are JSON, the
  -- newest first; with another exception of `json.loads` the handler raises the first such exception.
  pub collect_lem :
      (ms : List (Payload F))
      → collect ms [] ≡ unless (first_failure ms) (take 500 (newest_first ms []))
  collect_lem ms = collect-from ms []

  kept_by :
      (failure : Option Error) (events after : List (Json F))
      → unless failure events ≡ ok after
      → events ≡ after
  kept_by none events after h = ok_inj h
  kept_by (some e) events after h = cc

  kept_of :
      (ms : List (Payload F)) (acc after : List (Json F))
      → collect ms (take 500 acc) ≡ ok after
      → take 500 (newest_first ms acc) ≡ after
  kept_of ms acc after got =
      kept_by (first_failure ms) (take 500 (newest_first ms acc)) after
        (sym (collect-from ms acc) ∙ got)

  -- An event of this machine.
  abbrev pub IsOf : String → Json F → Type 0
  IsOf machine_id e = event_of e machine_id ≡ ok true

  keep_if-IsOf :
      (machine_id : String) (hit : Bool) (e : Json F) (rest : List (Json F))
      → event_of e machine_id ≡ ok hit
      → All (IsOf machine_id) rest
      → All (IsOf machine_id) (keep_if hit e rest)
  keep_if-IsOf machine_id true e rest h all = (h, all)
  keep_if-IsOf machine_id false e rest h all = all

  events_of-IsOf :
      (machine_id : String) (es found : List (Json F))
      → events_of machine_id es ≡ ok found
      → All (IsOf machine_id) found
  unfolding events_of
  events_of-IsOf machine_id [] found h = rw (sym (ok_inj h)) tt
  events_of-IsOf machine_id (e ∷ es) found h =
      let (hit, one, h1) = bind_ok (event_of e machine_id) _ h in
      let (rest, more, h2) = bind_ok (events_of machine_id es) _ h1 in
      rw (sym (ok_inj h2))
        (keep_if-IsOf machine_id hit e rest one (events_of-IsOf machine_id es rest more))

  All-take : (P : Json F → Type 0) (n : ℕ) (xs : List (Json F)) → All P xs → All P (take n xs)
  All-take P zero xs h = tt
  All-take P (suc n) [] h = tt
  All-take P (suc n) (x ∷ xs) h = (h.0, All-take P n xs h.1)

  -- How many events are of this machine.
  abbrev pub count_of : String → List (Json F) → ℕ
  count_of machine_id [] = 0
  count_of machine_id (e ∷ es) = counted (event_of e machine_id) (count_of machine_id es)

  length-keep_if :
      (r : Result Bool) (hit : Bool) (e : Json F) (rest : List (Json F)) (n : ℕ)
      → r ≡ ok hit
      → length rest ≡ n
      → length (keep_if hit e rest) ≡ counted r n
  length-keep_if r true e rest n h l = rw (h, l) refl
  length-keep_if r false e rest n h l = rw (h, l) refl

  length-events_of :
      (machine_id : String) (es found : List (Json F))
      → events_of machine_id es ≡ ok found
      → length found ≡ count_of machine_id es
  unfolding events_of
  length-events_of machine_id [] found h = ap length (sym (ok_inj h))
  length-events_of machine_id (e ∷ es) found h =
      let (hit, one, h1) = bind_ok (event_of e machine_id) _ h in
      let (rest, more, h2) = bind_ok (events_of machine_id es) _ h1 in
      ap length (sym (ok_inj h2))
      ∙ length-keep_if (event_of e machine_id) hit e rest _ one
          (length-events_of machine_id es rest more)

  slice-at_least_one :
      (limit : ℤ) (xs : List (Json F))
      → slice_to (at_least_one limit) xs ≡ take (max 1 (to_nat limit)) xs
  slice-at_least_one (pos n) xs = refl
  slice-at_least_one (negsuc n) xs = refl

  -- The events that the command server returns for a machine are that machine's, and they are as many as asked for, where a
  -- limit below one asks for one, or all of them if there are fewer.
  pub list_recent_events_bounds :
      (limit : ℤ) (machine_id : String) (events found : List (Json F))
      → list_recent_events limit (some machine_id) events ≡ ok found
      → All (IsOf machine_id) found
        × (length found ≡ min (max 1 (to_nat limit)) (count_of machine_id events))
  unfolding list_recent_events recent
  list_recent_events_bounds limit machine_id events found h =
      let (es, hits, done) = bind_ok (events_of machine_id events) _ h in
      let n = max 1 (to_nat limit) in
      let cut = sym (slice-at_least_one limit es) ∙ ok_inj done in
      rw (sym cut) (
        All-take (IsOf machine_id) n es (events_of-IsOf machine_id events es hits),
        length-take n es ∙ ap (min n) (length-events_of machine_id events es hits),
      )

  events_of-other :
      (machine_id : String) (xs : List (Json F)) (e : Json F) (ys : List (Json F))
      → as_object e ≡ none
      → events_of machine_id (xs ++ e ∷ ys) ≡ err attribute_error
  unfolding events_of
  events_of-other machine_id [] e ys h = rw h refl
  events_of-other machine_id (x ∷ xs) e ys h = elim (Option-cases (as_object x)) [
    | inl n ↦ rw n refl
    | inr (d, s) ↦ rw (s, events_of-other machine_id xs e ys h) refl
  ]

  -- Later messages only put more in front.
  newest_first-front :
      (ms : List (Payload F)) (xs : List (Json F)) (e : Json F) (ys : List (Json F))
      → (front : List (Json F)) × (newest_first ms (xs ++ e ∷ ys) ≡ front ++ e ∷ ys)
        × (length front ≤ length ms + length xs)
  unfolding newest_first
  newest_first-front [] xs e ys = (xs, refl, omega arith)
  newest_first-front (not_json ∷ ms) xs e ys =
      let (front, same, le) = newest_first-front ms xs e ys in (front, same, omega (arith, le))
  newest_first-front (failing x ∷ ms) xs e ys =
      let (front, same, le) = newest_first-front ms xs e ys in (front, same, omega (arith, le))
  newest_first-front (parsed x ∷ ms) xs e ys =
      let (front, same, le) = newest_first-front ms (x ∷ xs) e ys in
      (front, same, omega (arith, le))

  take-front :
      (n : ℕ) (front : List (Json F)) (e : Json F) (ys : List (Json F))
      → length front < n
      → (rest : List (Json F)) × (take n (front ++ e ∷ ys) ≡ front ++ e ∷ rest)
  take-front zero front e ys h = absurd (omega (arith, h))
  take-front (suc n) [] e ys h = (take n ys, refl)
  take-front (suc n) (x ∷ front) e ys h =
      let (rest, same) = take-front n front e ys (omega (arith, h)) in (rest, ap (λ l. x ∷ l) same)

  -- Once a payload that is JSON and no object has arrived, and as long as fewer than 500 messages have followed it, the
  -- search for a machine's events raises.
  pub other_payload_raises :
      (limit : ℤ) (machine_id : String) (e : Json F) (ms : List (Payload F))
      (events after : List (Json F))
      → as_object e ≡ none
      → length ms < 500
      → collect (parsed e ∷ ms) events ≡ ok after
      → list_recent_events limit (some machine_id) after ≡ err attribute_error
  unfolding list_recent_events recent collect on_event
  other_payload_raises limit machine_id e ms events after h few got =
      let (front, same, le) = newest_first-front ms [] e events in
      let (rest, cut) = take-front 500 front e events (omega (arith, le, few)) in
      let kept = kept_of ms (e ∷ events) after got in
      rw (sym kept ∙ ap (take 500) same ∙ cut) (rw (events_of-other machine_id front e rest h) refl)
