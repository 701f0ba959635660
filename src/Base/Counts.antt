-- ===== src/Base/Counts.antt =====
-- How often a number stands in a list.
use Prim.Native.Nat.{ℕ, zero, suc, ◌≤◌, ◌<◌}
use mathlib.Core.Path.{◌≡◌, refl}
use mathlib.Core.List.{List, [], ◌∷◌}
use native.Mathlib.Omega.{arith}
use iocoro.Base.Tests.{◌==◌, if◌then◌else◌}
use iocoro.Base.Lists.{length, get_or, total}

abbrev pub indicator : ℕ → ℕ → ℕ
indicator i j = if j == i then 1 else 0

abbrev pub count : ℕ → List ℕ → ℕ
count i = total (indicator i)

pub count-get_or : (xs : List ℕ) (k d : ℕ) → k < length xs → 1 ≤ count (get_or xs k d) xs
count-get_or [] k d h = absurd (omega arith)
count-get_or (x ∷ xs) zero d h = ground arith
count-get_or (x ∷ xs) (suc k) d h = ground (arith, count-get_or xs k d)

pub length-total {ℓ} : {A : Type ℓ} (xs : List A) → total (λ _. 1) xs ≡ length xs
length-total [] = refl
length-total (x ∷ xs) = omega (arith, length-total xs)
