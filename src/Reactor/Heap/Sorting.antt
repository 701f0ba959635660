-- ===== src/Reactor/Heap/Sorting.antt =====
-- An implementation of the heap interface, by sorting: it shows that the interface can be met.
use iocoro.Base.{
  ℕ, zero, suc, ◌+◌, ◌/◌, ◌≤◌, ◌<◌, ◌≡◌, refl, List, [], ◌∷◌, ◌++◌, arith, length, get_or, leb,
  if◌then◌else◌, total, total-append,
}
use iocoro.Reactor.Heap.{IsHeap, SameElements, HeapAlgorithm}

pub insert : (ℕ → ℕ) → ℕ → List ℕ → List ℕ
insert key x [] = x ∷ []
insert key x (y ∷ ys) = if leb (key x) (key y) then x ∷ y ∷ ys else y ∷ insert key x ys

pub sort : (ℕ → ℕ) → List ℕ → List ℕ
unfolding insert
sort key [] = []
sort key (x ∷ xs) = insert key x (sort key xs)

pub sorted_pop : (ℕ → ℕ) → List ℕ → List ℕ
unfolding sort
sorted_pop key [] = []
sorted_pop key (x ∷ xs) = sort key xs ++ x ∷ []

-- Each element of the list is at least `n`.
abbrev AtLeast : (ℕ → ℕ) → ℕ → List ℕ → Type 0
AtLeast key n [] = Unit {0}
AtLeast key n (x ∷ xs) = (n ≤ key x) × AtLeast key n xs

abbrev Sorted : (ℕ → ℕ) → List ℕ → Type 0
Sorted key [] = Unit {0}
Sorted key (x ∷ xs) = AtLeast key (key x) xs × Sorted key xs

AtLeast-mono : (key : ℕ → ℕ) (m n : ℕ) (xs : List ℕ) → m ≤ n → AtLeast key n xs → AtLeast key m xs
AtLeast-mono key m n [] le h = tt
AtLeast-mono key m n (x ∷ xs) le h = (omega arith, AtLeast-mono key m n xs le h.1)

insert-AtLeast :
    (key : ℕ → ℕ) (n x : ℕ) (xs : List ℕ)
    → n ≤ key x
    → AtLeast key n xs
    → AtLeast key n (insert key x xs)
unfolding insert
insert-AtLeast key n x [] le h = (le, tt)
insert-AtLeast key n x (y ∷ ys) le h = ground (arith, insert-AtLeast key n x ys)

insert-Sorted : (key : ℕ → ℕ) (x : ℕ) (xs : List ℕ) → Sorted key xs → Sorted key (insert key x xs)
unfolding insert
insert-Sorted key x [] h = (tt, tt)
insert-Sorted key x (y ∷ ys) h = ground (
  arith,
  insert-Sorted key x ys,
  insert-AtLeast key (key y) x ys,
  AtLeast-mono key (key x) (key y) ys,
)

sort-Sorted : (key : ℕ → ℕ) (xs : List ℕ) → Sorted key (sort key xs)
unfolding sort
sort-Sorted key [] = tt
sort-Sorted key (x ∷ xs) = insert-Sorted key x (sort key xs) (sort-Sorted key xs)

insert_same :
    (key : ℕ → ℕ) (x : ℕ) (xs : List ℕ) (w : ℕ → ℕ) → total w (insert key x xs) ≡ w x + total w xs
unfolding insert
insert_same key x [] w = refl
insert_same key x (y ∷ ys) w = ground (arith, insert_same key x ys w)

sort_same : (key : ℕ → ℕ) (xs : List ℕ) → SameElements (sort key xs) xs
unfolding sort
sort_same key [] w = refl
sort_same key (x ∷ xs) w = omega (arith, insert_same key x (sort key xs) w, sort_same key xs w)

AtLeast-get_or :
    (key : ℕ → ℕ) (n : ℕ) (xs : List ℕ) (i : ℕ)
    → AtLeast key n xs
    → i < length xs
    → n ≤ key (get_or xs i 0)
AtLeast-get_or key n [] i h inside = absurd (omega arith)
AtLeast-get_or key n (x ∷ xs) zero h inside = h.0
AtLeast-get_or key n (x ∷ xs) (suc i) h inside = AtLeast-get_or key n xs i h.1 (omega arith)

Sorted-get_or :
    (key : ℕ → ℕ) (xs : List ℕ) (i j : ℕ)
    → Sorted key xs
    → i ≤ j
    → j < length xs
    → key (get_or xs i 0) ≤ key (get_or xs j 0)
Sorted-get_or key [] i j h le inside = absurd (omega arith)
Sorted-get_or key (x ∷ xs) zero zero h le inside = omega arith
Sorted-get_or key (x ∷ xs) zero (suc j) h le inside =
    AtLeast-get_or key (key x) xs j h.0 (omega arith)
Sorted-get_or key (x ∷ xs) (suc i) zero h le inside = absurd (omega arith)
Sorted-get_or key (x ∷ xs) (suc i) (suc j) h le inside =
    Sorted-get_or key xs i j h.1 (omega arith) (omega arith)

pub sort-IsHeap : (key : ℕ → ℕ) (xs : List ℕ) → IsHeap key (sort key xs)
sort-IsHeap key xs i inside =
    Sorted-get_or key (sort key xs) (i / 2) (suc i) (sort-Sorted key xs) (omega arith) inside

pub push_sort_same :
    (key : ℕ → ℕ) (xs : List ℕ) (x : ℕ) → SameElements (sort key (xs ++ x ∷ [])) (x ∷ xs)
push_sort_same key xs x w =
    omega (arith, sort_same key (xs ++ x ∷ []) w, total-append w xs (x ∷ []))

pub sorted_pop_lem :
    (key : ℕ → ℕ) (x : ℕ) (xs : List ℕ)
    → IsHeap key (x ∷ xs)
    → (ys : List ℕ) × (sorted_pop key (x ∷ xs) ≡ ys ++ x ∷ []) × IsHeap key ys × SameElements ys xs
unfolding sorted_pop
sorted_pop_lem key x xs h = (sort key xs, refl, sort-IsHeap key xs, sort_same key xs)

unfoldable pub sorting : HeapAlgorithm
unfolding sort sorted_pop
sorting = record {
  push = sort;
  pop = sorted_pop;
  push_same = push_sort_same;
  push-IsHeap = λ key xs x h. sort-IsHeap key (xs ++ x ∷ []);
  pop_lem = sorted_pop_lem;
}
