-- ===== src/Simulator/Control/Scope.antt =====
-- What a command may change, and that an injected fault arrives.
use edgesense_ai.Prelude.{
  ◌≡◌, ◌≢◌, refl, sym, ap, ◌∙◌, ◌||◌, ◌<>◌, ◌⊎◌, max, length, All, ℕ, String, true, false, Option,
  none, some, List, Dict, lookup, insert, lookup-insert, eq_iff, eq_refl, str_eq, str_in, or_else,
  NoSlash, Bool-cases, inl, inr,
}
use edgesense_ai.Python.Error.{Result, ok, bind_ok, ok_inj}
use edgesense_ai.Python.Number.{pos, Float}
use edgesense_ai.Evaluate.{fault_types}
use edgesense_ai.Python.Json.{Json, Fields, get, is_text}
use edgesense_ai.Simulator.{Machine, Draws, start_fault, non_empty}
use edgesense_ai.Simulator.Faults.{run, injected_fault_labels}
use edgesense_ai.Simulator.Topics.{
  control_machine_id, machine_control_topic, machine_control_topic_lem, IsSegment,
}
use edgesense_ai.Simulator.Control.{
  Conversions, to_int, fault_named, start_named, command_machine, command_found, command_parsed,
  parsed_command, apply_control, fault_command,
}

lookup-insert_ne :
    {V : Type 0} (k j : String) (v : V) (d : Dict V) → k ≢ j → lookup j (insert k v d) ≡ lookup j d
lookup-insert_ne k j v d h = elim (Bool-cases (str_eq k j)) [
  | inl e ↦ absurd (h ((eq_iff k j).0 e))
  | inr e ↦ lookup-insert k j v d ∙ rw e refl
]

lookup-insert_self :
    {V : Type 0} (k : String) (v : V) (d : Dict V) → lookup k (insert k v d) ≡ some v
lookup-insert_self k v d = lookup-insert k k v d ∙ rw (eq_refl k) refl

module _ {F : Type 0} (conv : Conversions F) where
  same_fleet :
      {log log' : String} {a b : Dict (Machine F)}
      → ◌≡◌ {A = Result (String × Dict (Machine F))} (ok (log, a)) (ok (log', b))
      → a ≡ b
  same_fleet h = ap (λ p. p.1) (ok_inj h)

  start_named-scope :
      (cmd : Fields F) (key : String) (m : Machine F) (machines after : Dict (Machine F))
      (fault : Option String) (log j : String)
      → start_named conv cmd key m machines fault ≡ ok (log, after)
      → key ≢ j
      → lookup j after ≡ lookup j machines
  start_named-scope cmd key m machines after none log j h ne = ap (lookup j) (sym (same_fleet h))
  start_named-scope cmd key m machines after (some fault) log j h ne =
      let (ticks, _, done) =
        bind_ok (to_int conv (or_else (get cmd "ticks") (Json.int (pos 30)))) _ h in
      ap (lookup j) (sym (same_fleet done)) ∙ lookup-insert_ne key j _ machines ne

  command_machine-scope :
      (cmd : Fields F) (key : String) (m : Machine F) (machines after : Dict (Machine F))
      (log j : String)
      → command_machine conv cmd key m machines ≡ ok (log, after)
      → key ≢ j
      → lookup j after ≡ lookup j machines
  unfolding command_machine
  command_machine-scope cmd key m machines after log j h ne =
      elim (Bool-cases (is_text (get cmd "fault") "clear")) [
        | inl e ↦
            (let done = (rw e at h) in
              ap (lookup j) (sym (same_fleet done)) ∙ lookup-insert_ne key j _ machines ne)
        | inr e ↦
            start_named-scope cmd key m machines after (fault_named conv (get cmd "fault")) log j
              (rw e at h) ne
      ]

  command_at-scope :
      (cmd : Fields F) (mid : String) (machines after : Dict (Machine F)) (o : Option (Machine F))
      (log j : String)
      → command_found conv cmd
          (Json.str mid)
          machines
          (elim o [ none ↦ none | some m ↦ some (mid, m) ])
        ≡ ok (log, after)
      → mid ≢ j
      → lookup j after ≡ lookup j machines
  command_at-scope cmd mid machines after none log j h ne = ap (lookup j) (sym (same_fleet h))
  command_at-scope cmd mid machines after (some m) log j h ne =
      command_machine-scope cmd mid m machines after log j h ne

  -- A command on the topic of one machine changes no other machine, whatever its payload says.
  pub apply_control-scope :
      (machines after : Dict (Machine F)) (payload : Option (Json F)) (mid log j : String)
      → non_empty (some mid) ≡ true
      → apply_control conv machines payload (some mid) ≡ ok (log, after)
      → mid ≢ j
      → lookup j after ≡ lookup j machines
  unfolding apply_control
  apply_control-scope machines after payload mid log j named h ne =
      scope (parsed_command conv payload) h
    where
      scope :
          (parsed : Option (Fields F))
          → command_parsed conv machines (some mid) parsed ≡ ok (log, after)
          → lookup j after ≡ lookup j machines
      scope none h = ap (lookup j) (sym (same_fleet h))
      scope (some cmd) h =
          command_at-scope cmd mid machines after (lookup mid machines) log j (rw named at h) ne

not_clear : (fault : String) → str_in fault fault_types ≡ true → str_eq fault "clear" ≡ false
not_clear fault h = elim (Bool-cases (str_eq fault "clear")) [
  | inl e ↦
      absurd (clear_unknown (ap (λ f. str_in f fault_types) (sym ((eq_iff fault "clear").0 e)) ∙ h))
  | inr e ↦ e
]
  where
    clear_unknown : str_in "clear" fault_types ≢ true
    clear_unknown h = cc h

module _ {F : Type 0} (conv : Conversions F) where
  -- The command is applied to the machine that it names, by its topic or by its payload.
  fault_command-applied :
      (machines : Dict (Machine F)) (addressed : Option String) (mid fault : String) (ticks : ℕ)
      (m : Machine F)
      → (addressed ≡ some mid) ⊎ (addressed ≡ none)
      → non_empty (some mid) ≡ true
      → lookup mid machines ≡ some m
      → str_in fault fault_types ≡ true
      → apply_control conv machines (some (fault_command mid fault ticks)) addressed
        ≡ ok (
          "control: " <> (m.machine_id <> (" -> " <> fault)),
          insert mid (start_fault fault ticks m) machines,
        )
  unfolding apply_control command_machine
  fault_command-applied machines addressed mid fault ticks m (inl e) named there known =
      rw (e, named, there, not_clear fault known, known) refl
  fault_command-applied machines addressed mid fault ticks m (inr e) named there known =
      rw (e, there, not_clear fault known, known) refl

  addressed_by :
      (org site : Option String) (mid : String)
      → IsSegment org
      → IsSegment site
      → NoSlash mid
      → (control_machine_id (machine_control_topic org site mid) ≡ some mid)
        ⊎ (control_machine_id (machine_control_topic org site mid) ≡ none)
  addressed_by org site mid ho hs hm = elim (Bool-cases (non_empty org || non_empty site)) [
    | inl e ↦ inl (machine_control_topic_lem org site mid ho hs hm ∙ rw e refl)
    | inr e ↦ inr (machine_control_topic_lem org site mid ho hs hm ∙ rw e refl)
  ]

  -- A command that the demo publishes for a known fault of a machine of the fleet reaches that machine, with a tenant or
  -- without one, where the names of the tenant, the site and the machine have no slash and the machine's is not empty:
  -- its next readings, as many as the ticks and at least one, are labelled with the fault, and the fault is then over.
  pub published_fault_arrives :
      (fl : Float F) (anomaly_prob : F) (ds : List (Draws F)) (machines : Dict (Machine F))
      (org site : Option String) (mid fault : String) (ticks : ℕ) (m : Machine F)
      → IsSegment org
      → IsSegment site
      → NoSlash mid
      → non_empty (some mid) ≡ true
      → lookup mid machines ≡ some m
      → str_in fault fault_types ≡ true
      → length ds ≡ max 1 ticks
      → (log : String) × (after : Dict (Machine F)) × (apply_control conv machines
            (some (fault_command mid fault ticks))
            (control_machine_id (machine_control_topic org site mid))
          ≡ ok (log, after))
        × ((started : Machine F) × (lookup mid after ≡ some started)
            × All
                (λ reading. reading.fault_injected ≡ some fault)
                (run fl anomaly_prob ds started).0
            × ((run fl anomaly_prob ds started).1.fault ≡ none))
  published_fault_arrives fl anomaly_prob ds machines org site mid fault ticks m ho hs hm named
        there known enough =
      let applied =
        fault_command-applied machines _ mid fault ticks m (addressed_by org site mid ho hs hm)
          named there known in
      let (labelled, over) = injected_fault_labels fl anomaly_prob ds m fault ticks enough in
      (
        _,
        _,
        applied,
        (start_fault fault ticks m, lookup-insert_self mid _ machines, labelled, over),
      )
