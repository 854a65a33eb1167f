-- ===== src/Python/Json/Lookup.antt =====
-- A lookup behind an assignment to a key of an object.
use edgesense_ai.Prelude.{
  sym, List, [], ◌∷◌, ◌≡◌, refl, ap, ◌∙◌, String, false, Option, some, str_eq, eq_iff, Bool-cases,
  inl, inr, if◌then◌else◌,
}
use edgesense_ai.Python.Json.{Json, Fields, end, field, get, put}

pub get-put_ne :
    {F : Type 0} (d : Fields F) (k : String) (v : Json F) (j : String)
    → str_eq k j ≡ false
    → get (put d k v) j ≡ get d j
get-put_ne end k v j h = rw h refl
get-put_ne (field i w d) k v j h = elim (Bool-cases (str_eq i k)) [
  | inl e ↦
      (let other : str_eq i j ≡ false = ap (λ n. str_eq n j) ((eq_iff i k).0 e) ∙ h in
        rw (e, other) refl)
  | inr e ↦ rw (e, get-put_ne d k v j h) refl
]

pub get-put : {F : Type 0} (d : Fields F) (k : String) (v : Json F) → get (put d k v) k ≡ some v
get-put end k v = rw ((eq_iff k k).1 refl) refl
get-put (field i w d) k v = elim (Bool-cases (str_eq i k)) [
  | inl e ↦ rw e (rw e refl)
  | inr e ↦ rw e (rw e (get-put d k v))
]

-- Assignments one behind the other, and what they leave under a key that held `before`.
abbrev pub put_all : {F : Type 0} → Fields F → List (String × Json F) → Fields F
put_all d [] = d
put_all d ((k, v) ∷ kvs) = put_all (put d k v) kvs

abbrev pub assigned :
    {F : Type 0} → String → List (String × Json F) → Option (Json F) → Option (Json F)
assigned j [] before = before
assigned j ((k, v) ∷ kvs) before = assigned j kvs (if str_eq k j then some v else before)

get-put_if :
    {F : Type 0} (d : Fields F) (k : String) (v : Json F) (j : String)
    → get (put d k v) j ≡ (if str_eq k j then some v else get d j)
get-put_if d k v j = elim (Bool-cases (str_eq k j)) [
  | inl e ↦ rw (e, sym ((eq_iff k j).0 e)) (get-put d k v)
  | inr e ↦ rw e (get-put_ne d k v j e)
]

pub get-put_all :
    {F : Type 0} (kvs : List (String × Json F)) (d : Fields F) (j : String)
    → get (put_all d kvs) j ≡ assigned j kvs (get d j)
get-put_all [] d j = refl
get-put_all ((k, v) ∷ kvs) d j =
    get-put_all kvs (put d k v) j ∙ ap (assigned j kvs) (get-put_if d k v j)
