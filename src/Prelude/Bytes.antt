-- ===== src/Prelude/Bytes.antt =====
-- Python's `bytes`, as lists of numbers: the methods that read key material.
use Prim.Native.Nat.{ℕ, zero, suc, ◌-◌}
use mathlib.Core.Bool.{Bool, true, false, ◌&&◌, ◌||◌}
use mathlib.Core.List.{List, [], ◌∷◌, ◌++◌}
use edgesense_ai.Prelude.Tests.{◌==◌, if◌then◌else◌}
use edgesense_ai.Prelude.Lists.{length}

-- `data.startswith(prefix)`
unfoldable pub bytes_start : List ℕ → List ℕ → Bool
bytes_start xs [] = true
bytes_start [] (p ∷ ps) = false
bytes_start (x ∷ xs) (p ∷ ps) = (x == p) && bytes_start xs ps

-- `part in data`
unfoldable pub bytes_contain : List ℕ → List ℕ → Bool
unfolding bytes_start
bytes_contain [] part = bytes_start [] part
bytes_contain (x ∷ xs) part = bytes_start (x ∷ xs) part || bytes_contain xs part

-- the pieces of `data.split(sep)` from here on: `skip` bytes of a separator are still to pass, and
-- `piece` is what the current piece has so far
split_from : List ℕ → ℕ → List ℕ → List ℕ → List (List ℕ)
unfolding bytes_start
split_from sep skip piece [] = piece ∷ []
split_from sep (suc skip) piece (x ∷ xs) = split_from sep skip piece xs
split_from sep zero piece (x ∷ xs) =
    let cut = piece ∷ split_from sep (length sep - 1) [] xs in
    let next = split_from sep zero (piece ++ x ∷ []) xs in
    if bytes_start (x ∷ xs) sep then cut else next

unfoldable pub bytes_split : List ℕ → List ℕ → List (List ℕ)
unfolding split_from
bytes_split sep xs = split_from sep 0 [] xs
