-- ===== src/Evaluate/Sorting.antt =====
-- Sorting keeps the number of latencies and their bound, and so does a look into the sorted list.
use edgesense_ai.Prelude.{
  ℕ, zero, suc, ◌<◌, ◌≡◌, refl, sym, ap, ◌∙◌, Option, none, some, List, [], ◌∷◌, length, All, arith,
  Bool-cases, ◌↔◌, inl, inr, leb, get_elem?,
}
use edgesense_ai.Python.Error.{ok, bind_ok, ok_inj, or_raise, or_raise_ok, index_error}
use edgesense_ai.Evaluate.{sort, insort, item_at}

-- An index below the bound, or no index.
abbrev pub Below : ℕ → Option ℕ → Type 0
Below b none = Unit
Below b (some i) = i < b

length-insort : (x : ℕ) (xs : List ℕ) → length (insort x xs) ≡ suc (length xs)
length-insort x [] = refl
length-insort x (y ∷ ys) = ground (arith, length-insort x ys)

pub length-sort : (xs : List ℕ) → length (sort xs) ≡ length xs
length-sort [] = refl
length-sort (x ∷ xs) = length-insort x (sort xs) ∙ ap suc (length-sort xs)

All-insort : (P : ℕ → Type 0) (x : ℕ) (xs : List ℕ) → P x → All P xs → All P (insort x xs)
All-insort P x [] h k = (h, tt)
All-insort P x (y ∷ ys) h k = elim (Bool-cases (leb x y)) [
  | inl e ↦ rw e (h, k)
  | inr e ↦ rw e (k.0, All-insort P x ys h k.1)
]

pub All-sort : (P : ℕ → Type 0) (xs : List ℕ) → All P xs → All P (sort xs)
All-sort P [] h = tt
All-sort P (x ∷ xs) h = All-insort P x (sort xs) h.0 (All-sort P xs h.1)

Below-at : (b : ℕ) {o q : Option ℕ} → o ≡ q → Below b o → Below b q
Below-at b e h = rw (sym e) h

Below-get_elem? : (b : ℕ) (xs : List ℕ) (i : ℕ) → All (λ l. l < b) xs → Below b (get_elem? xs i)
Below-get_elem? b [] i h = tt
Below-get_elem? b (x ∷ xs) zero h = h.0
Below-get_elem? b (x ∷ xs) (suc i) h = Below-get_elem? b xs i h.1

-- An item of a list: there is none exactly for the empty list, and it is below the items' bound.
pub item_at_lem :
    (b : ℕ) (xs : List ℕ) (i : ℕ) {o : Option ℕ}
    → item_at xs i ≡ ok o
    → All (λ l. l < b) xs
    → ((o ≡ none) ↔ (length xs ≡ 0)) × Below b o
item_at_lem b [] i h k = rw (sym (ok_inj h)) (((λ _. refl), (λ _. refl)), tt)
item_at_lem b (x ∷ xs) i h k =
    let (v, found, e) = bind_ok (or_raise (get_elem? (x ∷ xs) i) index_error) _ h in
    let found' = or_raise_ok (get_elem? (x ∷ xs) i) index_error found in
    rw (sym (ok_inj e)) (
      ((λ n. cc n), (λ n. absurd (omega (arith, n)))),
      Below-at b found' (Below-get_elem? b (x ∷ xs) i k),
    )
