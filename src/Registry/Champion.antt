-- ===== src/Registry/Champion.antt =====
-- The champion that is resolved, after a promotion and without a pointer.
use edgesense_ai.Prelude.{
  ℕ, suc, zero, ◌≤◌, ◌≡◌, ◌≢◌, refl, sym, ap, ◌∙◌, String, Bool, true, false, none, some, List, [],
  ◌∷◌, All, Dict, lookup, ltb, get_elem?, arith, eq_iff, if◌then◌else◌, ltb→lt, ltb→ge, inl, inr,
  ◌⊎◌,
}
use edgesense_ai.Python.Error.{ok, bind_ok, ok_inj, or_raise, or_raise_ok, value_error}
use edgesense_ai.Registry.{
  ModelVersion, Client, int_of, non_empty, champions_of, numbered, best, best_of, newest_champion,
  resolve_champion_version, tag_version,
}

-- What MLflow documents: a tag that was set on the registered model is read back.
pub record IsStore {S : Type 0} (client : Client S) : Type 0 where
  pub tag_read :
      (s : S) (key value : String)
      → (tags : Dict String) × (client.get_registered_model
            (client.set_registered_model_tag s key value)
          ≡ ok tags)
        × (lookup key tags ≡ some value)

non_empty_lem : (s : String) → s ≢ "" → non_empty (some s) ≡ some s
non_empty_lem s h = ground (arith, eq_iff s "")

-- After a registration with `--promote` of a version with a name that is not empty, the champion
-- that the registry resolves is that version.
pub resolve-tag :
    {S : Type 0} (client : Client S)
    → IsStore client
    → (version edgesense_version : String) (s : S) → version ≢ ""
    → resolve_champion_version client (tag_version client true version edgesense_version s)
      ≡ ok version
unfolding resolve_champion_version tag_version
resolve-tag client store version edgesense_version s h =
    let named = client.set_model_version_tag s version "edgesense_version" edgesense_version in
    let read =
      store.tag_read (client.set_model_version_tag named version "role" "champion")
        "champion_version" version in
    rw (read.1, read.2, non_empty_lem version h)

picked :
    (b c : ℕ × ModelVersion) (t : Bool)
    → ltb b.0 c.0 ≡ t
    → let w = if t then c else b in (b.0 ≤ w.0) × (c.0 ≤ w.0) × ((w ≡ b) ⊎ (w ≡ c))
picked b c true h = (omega (arith, ltb→lt b.0 c.0 h), omega arith, inr refl)
picked b c false h = (omega arith, ltb→ge b.0 c.0 h, inl refl)

All-le :
    (m n : ℕ) (cs : List (ℕ × ModelVersion)) → m ≤ n → All (λ c. c.0 ≤ m) cs → All (λ c. c.0 ≤ n) cs
All-le m n [] h a = tt
All-le m n (c ∷ cs) h a = (omega (arith, a.0), All-le m n cs h a.1)

-- The best is at least as new as each, and is one of them.
best_ge :
    (b : ℕ × ModelVersion) (cs : List (ℕ × ModelVersion)) → All (λ c. c.0 ≤ (best b cs).0) (b ∷ cs)
best_ge b [] = (omega arith, tt)
best_ge b (c ∷ cs) =
    let w = if ltb b.0 c.0 then c else b in
    let r = best_ge w cs in
    let p = picked b c (ltb b.0 c.0) refl in
    (omega (arith, r.0, p.0), (omega (arith, r.0, p.1), r.1))

later :
    (b c w r : ℕ × ModelVersion) (cs : List (ℕ × ModelVersion)) (i : ℕ)
    → (w ≡ b) ⊎ (w ≡ c)
    → get_elem? (w ∷ cs) i ≡ some r
    → (j : ℕ) × (get_elem? (b ∷ c ∷ cs) j ≡ some r)
later b c w r cs (suc i) e h = (suc (suc i), h)
later b c w r cs zero (inl e) h = (0, ap some (sym e) ∙ h)
later b c w r cs zero (inr e) h = (1, ap some (sym e) ∙ h)

best_at :
    (b : ℕ × ModelVersion) (cs : List (ℕ × ModelVersion))
    → (i : ℕ) × (get_elem? (b ∷ cs) i ≡ some (best b cs))
best_at b [] = (0, refl)
best_at b (c ∷ cs) =
    let w = if ltb b.0 c.0 then c else b in
    let r = best_at w cs in
    let p = picked b c (ltb b.0 c.0) refl in later b c w (best w cs) cs r.0 p.2 r.1

some_inj : {A : Type 0} {x y : A} → some x ≡ some y → x ≡ y
some_inj h = cc

numbered_at :
    (vs : List ModelVersion) (ps : List (ℕ × ModelVersion)) (i : ℕ) (p : ℕ × ModelVersion)
    → numbered vs ≡ ok ps
    → get_elem? ps i ≡ some p
    → (get_elem? vs i ≡ some p.1) × (int_of p.1.version ≡ some p.0)
numbered_at [] [] i p e h = cc
numbered_at [] (q ∷ ps) i p e h = cc
numbered_at (v ∷ vs) ps zero p e h =
    let n = bind_ok (or_raise (int_of v.version) value_error) _ e in
    let rest = bind_ok (numbered vs) _ n.2 in
    let hit : some (n.0, v) ≡ some p = ap (λ l. get_elem? l zero) (ok_inj rest.2) ∙ h in
    let same = some_inj hit in
    (
      ap (λ q. some q.1) same,
      ap (λ q. int_of q.1.version) (sym same)
          ∙ or_raise_ok (int_of v.version) value_error n.1
          ∙ ap (λ q. some q.0) same,
    )
numbered_at (v ∷ vs) ps (suc i) p e h =
    let n = bind_ok (or_raise (int_of v.version) value_error) _ e in
    let rest = bind_ok (numbered vs) _ n.2 in
    numbered_at vs rest.0 i p rest.1 (ap (λ l. get_elem? l (suc i)) (ok_inj rest.2) ∙ h)

-- The version is a number, and one that is at most `n`.
abbrev pub NumberedUpTo : ℕ → ModelVersion → Type 0
NumberedUpTo n w = (k : ℕ) × (int_of w.version ≡ some k) × (k ≤ n)

All-eq :
    (P : ℕ × ModelVersion → Type 0) (xs ys : List (ℕ × ModelVersion))
    → xs ≡ ys
    → All P ys
    → All P xs
All-eq P xs ys e a = rw e a

numbered-All :
    (vs : List ModelVersion) (ps : List (ℕ × ModelVersion)) (n : ℕ)
    → numbered vs ≡ ok ps
    → All (λ c. c.0 ≤ n) ps
    → All (NumberedUpTo n) vs
numbered-All [] ps n e a = tt
numbered-All (v ∷ vs) ps n e a =
    let k = bind_ok (or_raise (int_of v.version) value_error) _ e in
    let rest = bind_ok (numbered vs) _ k.2 in
    let a' : All (λ c. c.0 ≤ n) ((k.0, v) ∷ rest.0) =
      All-eq _ ((k.0, v) ∷ rest.0) ps (ok_inj rest.2) a in
    (
      (k.0, or_raise_ok (int_of v.version) value_error k.1, a'.0),
      numbered-All vs rest.0 n rest.1 a'.1,
    )

-- A champion of the list, with its number the largest of all.
abbrev pub IsNewest : List ModelVersion → String → Type 0
IsNewest champions v =
    (n : ℕ) × (w : ModelVersion) × (i : ℕ) × (get_elem? champions i ≡ some w)
    × (w.version ≡ v)
    × (int_of v ≡ some n)
    × All (NumberedUpTo n) champions

best_of-IsNewest :
    (vs : List ModelVersion) (ps : List (ℕ × ModelVersion)) (v : String)
    → numbered vs ≡ ok ps
    → best_of ps ≡ ok v
    → IsNewest vs v
best_of-IsNewest vs [] v e h = cc
best_of-IsNewest vs (b ∷ bs) v e h =
    let at = best_at b bs in
    let found = numbered_at vs (b ∷ bs) at.0 (best b bs) e at.1 in
    let same : (best b bs).1.version ≡ v = ok_inj h in
    (
      (best b bs).0,
      (best b bs).1,
      at.0,
      found.0,
      same,
      ap int_of (sym same) ∙ found.1,
      numbered-All vs (b ∷ bs) (best b bs).0 e (best_ge b bs),
    )

newest_champion-IsNewest :
    (versions : List ModelVersion) (v : String)
    → newest_champion versions ≡ ok v
    → IsNewest (champions_of versions) v
unfolding newest_champion
newest_champion-IsNewest versions v h =
    let done = bind_ok (numbered (champions_of versions)) best_of h in
    best_of-IsNewest (champions_of versions) done.0 v done.1 done.2

-- Where the registered model has no pointer, the version that is resolved is one of those tagged as
-- champion, and its number is the largest of theirs.
pub resolve-IsNewest :
    {S : Type 0} (client : Client S) (s : S) (tags : Dict String) (versions : List ModelVersion)
    (v : String)
    → client.get_registered_model s ≡ ok tags
    → non_empty (lookup "champion_version" tags) ≡ none
    → client.search_model_versions s ≡ ok versions
    → resolve_champion_version client s ≡ ok v
    → IsNewest (champions_of versions) v
unfolding resolve_champion_version
resolve-IsNewest client s tags versions v ht hp hv h =
    let resolved : resolve_champion_version client s ≡ newest_champion versions = rw (ht, hp, hv) in
    newest_champion-IsNewest versions v (sym resolved ∙ h)
