-- ===== src/Evaluate/Episodes.antt =====
-- The readings of an episode, and the bounds of what is counted on them.
use edgesense_ai.Prelude.{
  ℕ, zero, suc, ◌+◌, ◌-◌, max, ◌≡◌, refl, sym, ap, ◌∙◌, String, none, some, List, [], ◌∷◌, length,
  All, arith,
}
use edgesense_ai.Python.Number.{Float}
use edgesense_ai.Simulator.{Machine, Draws, SensorReading, step, start_fault, tick}
use edgesense_ai.Simulator.Faults.{step_active, tick_more}
use edgesense_ai.Evaluate.{
  while_faulty, out_of_fuel, one_round, episode_readings, warm_up, new_machine,
}

module _ {F : Type 0} (fl : Float F) where
  while_faulty-lasts :
      (n : ℕ) (draws : ℕ → Draws F) (i : ℕ) (m : Machine F) (fault : String)
      → m.fault ≡ some fault
      → m.fault_ticks_left ≡ suc n
      → (rs : List (SensorReading F)) × (while_faulty fl (suc n) draws i m ≡ some rs)
        × (length rs ≡ suc n)
        × All (λ r. r.fault_injected ≡ some fault) rs
  unfolding while_faulty
  while_faulty-lasts zero draws i m fault h e =
      let s = step_active fl fl.zero (draws i) m fault h in
      let over : (step fl fl.zero (draws i) m).1.fault ≡ none =
        s.1 ∙ ap (λ n. (tick (some fault) n).0) e in
      let reading = (step fl fl.zero (draws i) m).0 in
      (
        reading ∷ [],
        ap (λ f. one_round fl f reading (out_of_fuel fl (step fl fl.zero (draws i) m).1.fault)) h
            ∙ ap (λ f. one_round fl (some fault) reading (out_of_fuel fl f)) over,
        refl,
        (s.0, tt),
      )
  while_faulty-lasts (suc n) draws i m fault h e =
      let s = step_active fl fl.zero (draws i) m fault h in
      let more = tick_more fault n in
      let rest =
        while_faulty-lasts n draws (i + 1) (step fl fl.zero (draws i) m).1 fault
          (s.1 ∙ ap (λ n. (tick (some fault) n).0) e ∙ ap (λ p. p.0) more)
          (s.2 ∙ ap (λ n. (tick (some fault) n).1) e ∙ ap (λ p. p.1) more) in
      let reading = (step fl fl.zero (draws i) m).0 in
      (
        reading ∷ rest.0,
        ap
              (λ f.
                one_round fl f reading
                  (while_faulty fl (suc n) draws (i + 1) (step fl fl.zero (draws i) m).1))
              h
            ∙ ap (one_round fl (some fault) reading) rest.1,
        ap suc rest.2,
        (s.0, rest.3),
      )

  -- The loop of an episode ends: it gives as many readings as the fault has ticks, at least one, and every
  -- one of them is labelled with the fault.
  pub episode_readings_lem :
      (fault : String) (ticks : ℕ) (draws : ℕ → Draws F)
      → (rs : List (SensorReading F)) × (episode_readings fl fault ticks draws ≡ some rs)
        × (length rs ≡ max 1 ticks)
        × All (λ r. r.fault_injected ≡ some fault) rs
  unfolding episode_readings start_fault
  episode_readings_lem fault ticks draws =
      let n = max 1 ticks - 1 in
      let e : max 1 ticks ≡ suc n = omega arith in
      let m = start_fault fault ticks (warm_up fl 5 draws 0 (new_machine fl "eval")) in
      let rest = while_faulty-lasts n draws 5 m fault refl e in
      (rest.0, ap (λ k. while_faulty fl k draws 5 m) e ∙ rest.1, rest.2 ∙ sym e, rest.3)
