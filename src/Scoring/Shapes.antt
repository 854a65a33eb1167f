-- ===== src/Scoring/Shapes.antt =====
-- The lengths of vectors through a forward pass.
use edgesense_ai.Prelude.{ℕ, suc, ◌≡◌, refl, sym, ap, ◌∙◌, List, [], ◌∷◌, length, map, arith}
use edgesense_ai.Python.Error.{Result, ok, ◌>>=◌}
use edgesense_ai.Python.Number.{Float}
use edgesense_ai.Scoring.{
  Matrix, Layer, add_products, matmul, broadcast, forward, zip_with, standardize,
}

pub length-map {ℓ κ} :
    {A : Type ℓ} {B : Type κ} (f : A → B) (xs : List A) → length (map f xs) ≡ length xs
length-map f [] = refl
length-map f (x ∷ xs) = ap suc (length-map f xs)

-- A call that returns a vector of this length.
abbrev pub Gives : {F : Type 0} → Result (List F) → ℕ → Type 0
Gives {F} r n = (ys : List F) × (r ≡ ok ys) × (length ys ≡ n)

module _ {F : Type 0} (fl : Float F) where
  length-zip_with :
      (f : F → F → F) (xs ys : List F)
      → length xs ≡ length ys
      → length (zip_with fl f xs ys) ≡ length ys
  length-zip_with f [] [] h = refl
  length-zip_with f [] (y ∷ ys) h = absurd (omega arith)
  length-zip_with f (x ∷ xs) [] h = absurd (omega arith)
  length-zip_with f (x ∷ xs) (y ∷ ys) h = ap suc (length-zip_with f xs ys (omega arith))

  pub broadcast-Gives :
      (f : F → F → F) (xs ys : List F)
      → length xs ≡ length ys
      → Gives (broadcast fl f xs ys) (length ys)
  unfolding broadcast
  broadcast-Gives f xs ys h = (zip_with fl f xs ys, ground arith, length-zip_with f xs ys h)

  pub standardize-Gives :
      (arr m s : List F) (n : ℕ)
      → length arr ≡ n
      → length m ≡ n
      → length s ≡ n
      → Gives (standardize fl arr m s) n
  unfolding standardize
  standardize-Gives arr m s n ha hm hs =
      let centred = broadcast-Gives fl.sub arr m (ha ∙ sym hm) in
      let scaled = broadcast-Gives fl.div centred.0 s (centred.2 ∙ hm ∙ sym hs) in
      (scaled.0, rw centred.1 scaled.1, scaled.2 ∙ hs)

  matmul-Gives :
      (h : List F) (w : Matrix F) → length h ≡ w.rows → Gives (matmul fl h w) (length w.columns)
  unfolding matmul
  matmul-Gives h w e = (
    map (λ column. add_products fl h column fl.zero) w.columns,
    ground arith,
    length-map _ w.columns,
  )

  -- One layer with its bias.
  layer-Gives :
      (h : List F) (w : Matrix F) (b : List F)
      → length h ≡ w.rows
      → length w.columns ≡ length b
      → Gives (matmul fl h w >>= λ product. broadcast fl fl.add product b) (length w.columns)
  layer-Gives h w b e k =
      let product = matmul-Gives h w e in
      let shifted = broadcast-Gives fl.add product.0 b (product.2 ∙ k) in
      (shifted.0, rw product.1 shifted.1, shifted.2 ∙ sym k)

  -- The layers take vectors of length `d` and give vectors of length `e`.
  abbrev pub IsChain : ℕ → List (Layer F) → ℕ → Type 0
  IsChain d [] e = d ≡ e
  IsChain d ((w, b) ∷ layers) e =
      (w.rows ≡ d) × (length w.columns ≡ length b) × IsChain (length w.columns) layers e

  pub forward-Gives :
      (act : F → F) (layers : List (Layer F)) (h : List F) (d e : ℕ)
      → IsChain d layers e
      → length h ≡ d
      → Gives (forward fl act layers h) e
  unfolding forward
  forward-Gives act [] h d e chain k = (h, refl, k ∙ chain)
  forward-Gives act ((w, b) ∷ []) h d e (rows, bias, last) k =
      let out = layer-Gives h w b (k ∙ sym rows) bias in (out.0, out.1, out.2 ∙ last)
  forward-Gives act ((w, b) ∷ layer ∷ layers) h d e (rows, bias, rest) k =
      let product = matmul-Gives h w (k ∙ sym rows) in
      let sum = broadcast-Gives fl.add product.0 b (product.2 ∙ bias) in
      let out =
        forward-Gives act (layer ∷ layers) (map act sum.0) (length w.columns) e rest
          (length-map act sum.0 ∙ sum.2 ∙ sym bias) in
      (out.0, rw (product.1, sum.1) out.1, out.2)
