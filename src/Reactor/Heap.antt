-- ===== src/Reactor/Heap.antt =====
-- `std::push_heap` and `std::pop_heap`, as include/iocoro/detail/timer_registry.hpp uses them: an
-- interface with what the C++ standard says of them. The comparison `expiry(a) > expiry(b)` makes
-- a heap whose front has the earliest expiry.
pub mod Sorting
use iocoro.Base.{
  ℕ, zero, suc, ◌+◌, ◌/◌, ◌≤◌, ◌<◌, ◌≡◌, refl, List, [], ◌∷◌, ◌++◌, arith, length, get_or, total,
}

-- No element is earlier than its parent in the binary tree that the vector stands for.
abbrev pub IsHeap : (ℕ → ℕ) → List ℕ → Type 0
IsHeap key xs = (i : ℕ) → suc i < length xs → key (get_or xs (i / 2) 0) ≤ key (get_or xs (suc i) 0)

-- Two lists hold the same elements, each as often.
abbrev pub SameElements : List ℕ → List ℕ → Type 0
SameElements xs ys = (w : ℕ → ℕ) → total w xs ≡ total w ys

pub record HeapAlgorithm : Type 0 where
  pub push : (ℕ → ℕ) → List ℕ → List ℕ
  pub pop : (ℕ → ℕ) → List ℕ → List ℕ
  pub push_same :
      (key : ℕ → ℕ) (xs : List ℕ) (x : ℕ) → SameElements (push key (xs ++ x ∷ [])) (x ∷ xs)
  pub push-IsHeap :
      (key : ℕ → ℕ) (xs : List ℕ) (x : ℕ) → IsHeap key xs → IsHeap key (push key (xs ++ x ∷ []))
  pub pop_lem :
      (key : ℕ → ℕ) (x : ℕ) (xs : List ℕ)
      → IsHeap key (x ∷ xs)
      → (ys : List ℕ) × (pop key (x ∷ xs) ≡ ys ++ x ∷ []) × IsHeap key ys × SameElements ys xs

-- The front is the earliest element.
front-le :
    (key : ℕ → ℕ) (xs : List ℕ)
    → IsHeap key xs
    → (k i : ℕ) → i < k
    → i < length xs
    → key (get_or xs 0 0) ≤ key (get_or xs i 0)
front-le key xs h zero i lt inside = absurd (omega arith)
front-le key xs h (suc k) zero lt inside = omega arith
front-le key xs h (suc k) (suc i) lt inside =
    omega (arith, h i inside, front-le key xs h k (i / 2) (omega arith) (omega arith))

pub IsHeap-front :
    (key : ℕ → ℕ) (x : ℕ) (xs : List ℕ)
    → IsHeap key (x ∷ xs)
    → (i : ℕ) → i < length (x ∷ xs)
    → key x ≤ key (get_or (x ∷ xs) i 0)
IsHeap-front key x xs h i inside = front-le key (x ∷ xs) h (suc i) i (omega arith) inside

-- A heap stays one where the keys of its elements stay.
pub IsHeap-keys :
    (key key' : ℕ → ℕ) (xs : List ℕ)
    → ((i : ℕ) → i < length xs → key' (get_or xs i 0) ≡ key (get_or xs i 0))
    → IsHeap key xs
    → IsHeap key' xs
IsHeap-keys key key' xs same h i inside =
    omega (arith, h i inside, same (i / 2) (omega arith), same (suc i) inside)
