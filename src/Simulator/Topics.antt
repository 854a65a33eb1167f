-- ===== src/Simulator/Topics.antt =====
-- The topics that the simulator reads and writes, as its listeners read and write them: simulator/simulate.py
-- (`control_machine_id`), scripts/demo.py (`control_topic`), and dashboard/app.py and scripts/demo.py (`is_reading_topic`).
use edgesense_ai.Prelude.{
  ◌≡◌, refl, ap, ◌∙◌, ℕ, suc, ◌<>◌, String, Bool, true, false, ◌&&◌, ◌||◌, Option, none, some, List,
  [], ◌∷◌, length, get_elem?, arith, leb, str_eq, if◌then◌else◌, split_slash, NoSlash,
  split_slash-append, split_slash-single, Bool-cases, inl, inr,
}
use text.Mathlib.TextLemmas.{append_assoc}
use edgesense_ai.Simulator.{non_empty, or_default, sensor_topic}

abbrev part_is : Option String → String → Bool
part_is none t = false
part_is (some s) t = str_eq s t

-- `parts[-1]`
abbrev last_part : List String → Option String
last_part [] = none
last_part (p ∷ []) = some p
last_part (p ∷ q ∷ ps) = last_part (q ∷ ps)

unfoldable pub control_machine_id : String → Option String
unfolding split_slash
control_machine_id topic =
    let parts = split_slash topic in
    if part_is (get_elem? parts 0) "es"
      && leb 5 (length parts)
      && part_is (last_part parts) "control"
    then get_elem? parts 3
    else none

unfoldable pub is_reading_topic : String → Bool
unfolding split_slash
is_reading_topic topic =
    let parts = split_slash topic in
    if part_is (get_elem? parts 0) "es"
    then leb 5 (length parts) && part_is (get_elem? parts 4) "sensors"
    else leb 2 (length parts) && part_is (get_elem? parts 1) "sensors"

-- The topic of `scripts/demo.py` for a command to one machine.
unfoldable pub machine_control_topic : Option String → Option String → String → String
machine_control_topic org site machine =
    if non_empty org || non_empty site
    then "es/" <> (or_default org <> ("/" <> (or_default site <> ("/" <> (machine <> "/control")))))
    else "edgesense/control/fault"

-- A tenant without a slash in its name.
abbrev pub IsSegment : Option String → Type 0
IsSegment none = Unit
IsSegment (some s) = NoSlash s

or_default-NoSlash : (o : Option String) → IsSegment o → NoSlash (or_default o)
or_default-NoSlash none h = (refl, (refl, (refl, (refl, (refl, (refl, (refl, tt)))))))
or_default-NoSlash (some s) h = elim (Bool-cases (non_empty (some s))) [
  | inl e ↦ rw e h
  | inr e ↦ rw e (refl, (refl, (refl, (refl, (refl, (refl, (refl, tt)))))))
]

-- The parts of a topic of a tenant.
tenant_parts :
    (org site machine kind : String)
    → NoSlash org
    → NoSlash site
    → NoSlash machine
    → NoSlash kind
    → split_slash ("es/" <> org <> "/" <> site <> "/" <> machine <> ("/" <> kind))
      ≡ "es" ∷ org ∷ site ∷ machine ∷ kind ∷ []
tenant_parts org site machine kind ho hs hm hk =
    let rest = org <> ("/" <> (site <> ("/" <> (machine <> ("/" <> kind))))) in
    let start : split_slash ("es" <> ("/" <> rest)) ≡ "es" ∷ split_slash rest =
      split_slash-append "es" rest (refl, (refl, tt)) in
    ap split_slash (append_assoc "es" "/" rest)
    ∙ start
    ∙ ap (λ l. "es" ∷ l)
        (split_slash-append org _ ho
          ∙ ap (λ l. org ∷ l)
              (split_slash-append site _ hs
                ∙ ap (λ l. site ∷ l)
                    (split_slash-append machine kind hm
                      ∙ ap (λ l. machine ∷ l) (split_slash-single kind hk))))

es_parts :
    (org site : Option String) (machine kind : String)
    → IsSegment org
    → IsSegment site
    → NoSlash machine
    → NoSlash kind
    → split_slash (
        "es/"
        <> (or_default org <> ("/" <> (or_default site <> ("/" <> (machine <> ("/" <> kind)))))))
      ≡ "es" ∷ or_default org ∷ or_default site ∷ machine ∷ kind ∷ []
es_parts org site machine kind ho hs hm hk =
    tenant_parts (or_default org) (or_default site) machine kind (or_default-NoSlash org ho)
      (or_default-NoSlash site hs) hm hk

legacy_parts :
    (machine : String)
    → split_slash ("edgesense/sensors/" <> machine) ≡ "edgesense" ∷ "sensors" ∷ split_slash machine
legacy_parts machine =
    ap split_slash (
      append_assoc "edgesense/sensors" "/" machine
      ∙ append_assoc "edgesense" "/sensors" ("/" <> machine)
      ∙ ap (λ t. "edgesense" <> t) (append_assoc "/" "sensors" ("/" <> machine)))
    ∙ split_slash-append "edgesense" _
        (refl, (refl, (refl, (refl, (refl, (refl, (refl, (refl, (refl, tt)))))))))
    ∙ ap (λ l. "edgesense" ∷ l)
        (split_slash-append "sensors" machine
          (refl, (refl, (refl, (refl, (refl, (refl, (refl, tt))))))))

at_least_two : (n : ℕ) → leb 2 (suc (suc n)) ≡ true
at_least_two n = ground arith

-- The listeners take the topic that the simulator publishes a reading on for one of readings, where the names of
-- the tenant and of the machine have no slash.
pub sensor_topic-reading :
    (org site : Option String) (machine : String)
    → IsSegment org
    → IsSegment site
    → NoSlash machine
    → is_reading_topic (sensor_topic org site machine) ≡ true
unfolding is_reading_topic sensor_topic
sensor_topic-reading org site machine ho hs hm =
    elim (Bool-cases (non_empty org || non_empty site)) [
      | inl e ↦
          rw
            (
              e,
              es_parts org site machine "sensors" ho hs hm
                  (refl, (refl, (refl, (refl, (refl, (refl, (refl, tt))))))),
            )
            refl
      | inr e ↦ rw (e, legacy_parts machine, at_least_two (length (split_slash machine))) refl
    ]

-- The machine that the simulator reads off a command's topic: the one that the demo addressed, or none on the global
-- topic without a tenant.
pub machine_control_topic_lem :
    (org site : Option String) (machine : String)
    → IsSegment org
    → IsSegment site
    → NoSlash machine
    → control_machine_id (machine_control_topic org site machine)
      ≡ (if non_empty org || non_empty site then some machine else none)
unfolding control_machine_id machine_control_topic
machine_control_topic_lem org site machine ho hs hm =
    elim (Bool-cases (non_empty org || non_empty site)) [
      | inl e ↦
          rw
            (
              e,
              es_parts org site machine "control" ho hs hm
                  (refl, (refl, (refl, (refl, (refl, (refl, (refl, tt))))))),
            )
            refl
      | inr e ↦ rw e refl
    ]
