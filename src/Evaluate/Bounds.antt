-- ===== src/Evaluate/Bounds.antt =====
-- The bounds of what `evaluate` counts.
use edgesense_ai.Prelude.{
  ℕ, zero, suc, ◌+◌, ◌*◌, ◌/◌, ◌<◌, ◌≤◌, max, ◌≡◌, refl, sym, ap, ◌∙◌, String, Bool, true, false,
  Option, none, some, List, [], ◌∷◌, map, length, All, arith, ◌↔◌, or_else, Dict, if◌then◌else◌,
}
use edgesense_ai.Python.Error.{ok, bind_ok, ok_inj, or_raise, key_error}
use edgesense_ai.Python.Number.{Float}
use edgesense_ai.Scoring.{Bundle, Pipelines, Reason}
use edgesense_ai.Simulator.{SensorReading, Machine, Draws, step}
use edgesense_ai.Evaluate.{
  Tally, Settings, flag, count_reading, count_readings, close_episode, run_episodes,
  evaluate_faults, evaluate, Evaluation, count_false, empty_tally, new_machine, fault_types,
  FaultEval, close_fault, ratio, recall, sort, item_at, readings_or_none, episode_readings,
}
use edgesense_ai.Evaluate.Sorting.{Below, length-sort, All-sort, item_at_lem}
use edgesense_ai.Evaluate.Episodes.{episode_readings_lem}

-- What `n` readings after the tally `t` have counted.
abbrev Progress : ℕ → ℕ → Tally → Tally × Option ℕ → Type 0
Progress b n t acc =
    (acc.0.detected ≡ t.detected)
    × (acc.0.latencies ≡ t.latencies)
    × (acc.0.total ≡ t.total + n)
    × (acc.0.hits ≤ acc.0.total)
    × Below b acc.1

-- What `n` episodes of `b` readings have counted.
abbrev pub Counted : ℕ → ℕ → Tally → Type 0
Counted b n t =
    (t.detected ≡ length t.latencies)
    × (t.detected ≤ n)
    × (t.total ≡ n * b)
    × (t.hits ≤ t.total)
    × All (λ l. l < b) t.latencies

Below-or_else : (b i : ℕ) (first : Option ℕ) → i < b → Below b first → or_else first i < b
Below-or_else b i none h k = h
Below-or_else b i (some j) h k = k

mul_suc : (n b : ℕ) → n * b + b ≡ suc n * b
mul_suc n b = omega arith

Counted-at : (b : ℕ) {m n : ℕ} (t : Tally) → m ≡ n → Counted b m t → Counted b n t
Counted-at b t e c = rw (sym e) c

close_episode_lem :
    (b n : ℕ) (t : Tally) (acc : Tally × Option ℕ)
    → Progress b b t acc
    → Counted b n t
    → Counted b (suc n) (close_episode acc)
close_episode_lem b n t (u, none) (d, l, total, hits, below) (detected, le, all, le2, lat) = (
  d ∙ detected ∙ ap length (sym l),
  omega (arith, d, le),
  total ∙ ap (λ k. k + b) all ∙ mul_suc n b,
  hits,
  rw l lat,
)
close_episode_lem b n t (u, some i) (d, l, total, hits, below) (detected, le, all, le2, lat) = (
  omega (arith, d ∙ detected ∙ ap length (sym l)),
  omega (arith, d, le),
  total ∙ ap (λ k. k + b) all ∙ mul_suc n b,
  hits,
  (below, rw l lat),
)

module _ {F P : Type 0} (fl : Float F) (pipes : Pipelines F P) (default_guard : F)
    (bundle : Bundle F P) (features : List String) where
  count_reading_lem :
      (b i n : ℕ) (t : Tally) (flagged : Bool × Option Reason) (acc : Tally × Option ℕ)
      → i < b
      → Progress b n t acc
      → Progress b (n + 1) t (count_reading i flagged acc)
  count_reading_lem b i n t (true, reason) (u, first) h (d, l, total, hits, below) =
      (d, l, omega (arith, total), omega (arith, hits), Below-or_else b i first h below)
  count_reading_lem b i n t (false, reason) (u, first) h (d, l, total, hits, below) =
      (d, l, omega (arith, total), omega (arith, hits), below)

  count_readings_lem :
      (b : ℕ) (rs : List (SensorReading F)) (i n : ℕ) (t : Tally) (acc : Tally × Option ℕ)
      {r : Tally × Option ℕ}
      → count_readings fl pipes default_guard bundle features i rs acc ≡ ok r
      → i + length rs ≤ b
      → Progress b n t acc
      → Progress b (n + length rs) t r
  unfolding count_readings
  count_readings_lem b [] i n t acc h le (d, l, total, hits, below) =
      rw (sym (ok_inj h)) (d, l, omega (arith, total), hits, below)
  count_readings_lem b (x ∷ rs) i n t acc h le p =
      let (flagged, _, rest) = bind_ok (flag fl pipes default_guard bundle features x) _ h in
      let more = count_reading_lem b i n t flagged acc (omega arith) p in
      let (d, l, total, hits, below) =
        count_readings_lem b rs (i + 1) (n + 1) t _ rest (omega (arith, le)) more in
      (d, l, omega (arith, total), hits, below)

  run_episodes_lem :
      (s : Settings F) (fault : String) (fi n ep : ℕ) (t : Tally) (u : Tally)
      → run_episodes fl pipes default_guard bundle features s fault fi n ep t ≡ ok u
      → Counted (max 1 s.ticks) ep t
      → Counted (max 1 s.ticks) (n + ep) u
  unfolding run_episodes
  run_episodes_lem s fault fi zero ep t u h c =
      rw (sym (ok_inj h)) (Counted-at (max 1 s.ticks) t (omega arith) c)
  run_episodes_lem s fault fi (suc n) ep t u h c =
      let draws = s.draws (s.seed * 1000 + fi * 101 + ep) in
      let (rs, e, len, _) = episode_readings_lem fl fault s.ticks draws in
      let b = max 1 s.ticks in
      let (_, _, _, hits, _) = c in
      let (counted, k, rest) =
        bind_ok
          (count_readings fl pipes default_guard bundle features 0
            (readings_or_none (episode_readings fl fault s.ticks draws)) (t, none))
          _ h in
      let k' =
        sym (
          ap
            (λ o.
              count_readings fl pipes default_guard bundle features 0 (readings_or_none o)
                (t, none))
            e)
        ∙ k in
      let (d, l, total, hits', below) =
        count_readings_lem b rs 0 0 t (t, none) k' (omega (arith, len))
          (refl, refl, omega arith, hits, tt) in
      let one =
        close_episode_lem b ep t counted (d, l, omega (arith, total, len), hits', below) c in
      Counted-at b u (omega arith) (
        run_episodes_lem s fault fi n (ep + 1) (close_episode counted) u rest
          (Counted-at b (close_episode counted) (omega arith) one))

-- The summary of one fault: every episode is accounted for, a median latency is known exactly when an
-- episode was detected, the latencies are below the episode's length, and the recall is a share of
-- all the readings.
abbrev pub FaultBounds : {F : Type 0} → Float F → Settings F → FaultEval F → Type 0
FaultBounds fl s e =
    (e.result.episodes ≡ s.episodes)
    × (e.result.detected ≤ s.episodes)
    × ((e.result.median_latency ≡ none) ↔ (e.result.detected ≡ 0))
    × Below (max 1 s.ticks) e.result.median_latency
    × Below (max 1 s.ticks) e.p90_latency
    × ((hits : ℕ) × (hits ≤ s.episodes * max 1 s.ticks)
        × (e.result.reading_recall ≡ recall fl hits (s.episodes * max 1 s.ticks)))

module _ {F : Type 0} (fl : Float F) where
  close_fault_lem :
      (s : Settings F) (t : Tally) (e : FaultEval F)
      → close_fault fl s t ≡ ok e
      → Counted (max 1 s.ticks) s.episodes t
      → FaultBounds fl s e
  unfolding close_fault
  close_fault_lem s t e h (detected, le, total, hits, below) =
      let xs = sort t.latencies in
      let (rate, _, h1) = bind_ok (ratio fl t.detected s.episodes) _ h in
      let (median, m, h2) = bind_ok (item_at xs (length xs / 2)) _ h1 in
      let (p90, p, h3) = bind_ok (item_at xs (s.ninety_percent (length xs))) _ h2 in
      let small = All-sort (λ l. l < max 1 s.ticks) t.latencies below in
      let size = detected ∙ sym (length-sort t.latencies) in
      let med = item_at_lem (max 1 s.ticks) xs (length xs / 2) m small in
      let last = item_at_lem (max 1 s.ticks) xs (s.ninety_percent (length xs)) p small in
      rw (sym (ok_inj h3)) (
        refl,
        le,
        ((λ n. size ∙ med.0.0 n), (λ n. med.0.1 (sym size ∙ n))),
        med.1,
        last.1,
        (t.hits, omega (arith, total, hits), ap (recall fl t.hits) total),
      )

module _ {F P : Type 0} (fl : Float F) (pipes : Pipelines F P) (default_guard : F)
    (bundle : Bundle F P) where
  evaluate_faults_lem :
      (features : List String) (s : Settings F) (fi : ℕ) (faults : List String)
      (es : Dict (FaultEval F))
      → evaluate_faults fl pipes default_guard bundle features s fi faults ≡ ok es
      → (map (λ e. e.0) es ≡ faults) × All (λ e. FaultBounds fl s e.1) es
  unfolding evaluate_faults
  evaluate_faults_lem features s fi [] es h = rw (sym (ok_inj h)) (refl, tt)
  evaluate_faults_lem features s fi (fault ∷ faults) es h =
      let (t, ran, h1) =
        bind_ok
          (run_episodes fl pipes default_guard bundle features s fault fi s.episodes 0 empty_tally)
          _ h in
      let (e, closed, h2) = bind_ok (close_fault fl s t) _ h1 in
      let (rest, more, h3) =
        bind_ok (evaluate_faults fl pipes default_guard bundle features s (fi + 1) faults) _ h2 in
      let none_yet : Counted (max 1 s.ticks) 0 empty_tally =
        (refl, omega arith, omega arith, omega arith, tt) in
      let c =
        run_episodes_lem fl pipes default_guard bundle features s fault fi s.episodes 0 empty_tally
          t ran none_yet in
      let (names, bounds) = evaluate_faults_lem features s (fi + 1) faults rest more in
      let c' = Counted-at (max 1 s.ticks) t (omega arith) c in
      rw (sym (ok_inj h3)) (ap (λ l. fault ∷ l) names, (close_fault_lem fl s t e closed c', bounds))

  count_false_lem :
      (features : List String) (draws : ℕ → Draws F) (n i : ℕ) (m : Machine F) (fp k : ℕ)
      → count_false fl pipes default_guard bundle features draws n i m fp ≡ ok k
      → k ≤ fp + n
  unfolding count_false
  count_false_lem features draws zero i m fp k h = let e : fp ≡ k = ok_inj h in omega (arith, e)
  count_false_lem features draws (suc n) i m fp k h =
      let (reading, m') = step fl fl.zero (draws i) m in
      let (flagged, _, rest) = bind_ok (flag fl pipes default_guard bundle features reading) _ h in
      let le =
        count_false_lem features draws n (i + 1) m' (if flagged.0 then fp + 1 else fp) k rest in
      let one : (if flagged.0 then fp + 1 else fp) ≤ fp + 1 = ground arith in omega (arith, le, one)

  -- An evaluation that raises nothing reports every fault type, in order. For each, the episodes detected
  -- are at most those run, there is no median latency exactly when none was detected, the latencies are
  -- below the length of an episode, and the recall is a share of all its readings. The false positives
  -- are at most the healthy readings.
  pub evaluate_bounds :
      (s : Settings F) (e : Evaluation F)
      → evaluate fl pipes default_guard s bundle ≡ ok e
      → (map (λ r. r.0) e.faults ≡ fault_types)
        × All (λ r. FaultBounds fl s r.1) e.faults
        × (e.healthy ≡ s.healthy)
        × (e.fp ≤ s.healthy)
  unfolding evaluate
  evaluate_bounds s e h =
      let (features, _, h1) = bind_ok (or_raise bundle.features key_error) _ h in
      let (faults, f, h2) =
        bind_ok (evaluate_faults fl pipes default_guard bundle features s 0 fault_types) _ h1 in
      let (fp, counted, h3) =
        bind_ok
          (count_false fl pipes default_guard bundle features (s.draws s.seed) s.healthy 0
            (new_machine fl "eval-healthy") 0)
          _ h2 in
      let (rate, _, h4) = bind_ok (ratio fl fp s.healthy) _ h3 in
      let (names, bounds) = evaluate_faults_lem features s 0 fault_types faults f in
      let le =
        count_false_lem features (s.draws s.seed) s.healthy 0 (new_machine fl "eval-healthy") 0 fp
          counted in
      rw (sym (ok_inj h4)) (names, bounds, refl, omega (arith, le))
