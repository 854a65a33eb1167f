-- ===== src/Rotating/Sorting.antt =====
-- Sorting a table by its keys changes no lookup.
use edgesense_ai.Prelude.{
  ◌≡◌, refl, sym, ap, ◌∙◌, ℕ, String, true, false, List, [], ◌∷◌, Dict, lookup, codes, str_eq,
  eq_iff, Bool-cases, inl, inr, arith,
}
use edgesense_ai.Rotating.{codes_lt, text_lt, insert_by, sorted_by}
use edgesense_ai.Rotating.Dataset.{key_lt}

codes_lt_irrefl : (s : List ℕ) → codes_lt s s ≡ false
codes_lt_irrefl [] = refl
codes_lt_irrefl (c ∷ s) = ground (arith, codes_lt_irrefl s)

text_lt_ne : (a b : String) → text_lt a b ≡ true → str_eq a b ≡ false
text_lt_ne a b h = elim (Bool-cases (str_eq a b)) [
  | inl e ↦
      (let same : a ≡ b = (eq_iff a b).0 e in
        let lt : text_lt b b ≡ true = ap (λ x. text_lt x b) (sym same) ∙ h in
        let no : text_lt b b ≡ false = codes_lt_irrefl (codes b) in cc)
  | inr e ↦ e
]

module _ {A : Type 0} where
  -- Sorting by the keys changes no lookup.
  lookup-insert_by :
      (k j : String) (v : A) (d : Dict A)
      → lookup k (insert_by key_lt (j, v) d) ≡ lookup k ((j, v) ∷ d)
  lookup-insert_by k j v [] = refl
  lookup-insert_by k j v ((i, w) ∷ d) = elim (Bool-cases (text_lt i j)) [
    | inl e ↦ rw e (
        ground
          (arith, text_lt_ne i j e, eq_iff i j, eq_iff i k, eq_iff j k, lookup-insert_by k j v d))
    | inr e ↦ rw e refl
  ]

  pub lookup-sorted_by : (k : String) (d : Dict A) → lookup k (sorted_by key_lt d) ≡ lookup k d
  lookup-sorted_by k [] = refl
  lookup-sorted_by k ((j, v) ∷ d) =
      lookup-insert_by k j v (sorted_by key_lt d) ∙ rw (lookup-sorted_by k d) refl
