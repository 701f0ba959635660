-- ===== src/Base/Lists.antt =====
-- Lists measured and indexed by native numbers, as `std::vector` and `std::span` are.
use Prim.Native.Nat.{ℕ, zero, suc, ◌+◌, ◌-◌, ◌≤◌, ◌<◌}
use mathlib.Core.Path.{◌≡◌, refl, ap}
use mathlib.Core.Logic.{◌≢◌}
use mathlib.Core.List.{List, [], ◌∷◌, ◌++◌}
use mathlib.Core.Option.{Option, none, some, some_inj}
use native.Mathlib.Omega.{arith}

module _ {ℓ} {A : Type ℓ} where
  abbrev pub length : List A → ℕ
  length [] = 0
  length (x ∷ xs) = suc (length xs)

  abbrev pub get_or : List A → ℕ → A → A
  get_or [] i d = d
  get_or (x ∷ xs) zero d = x
  get_or (x ∷ xs) (suc i) d = get_or xs i d

  -- A write out of bounds changes nothing.
  abbrev pub set : List A → ℕ → A → List A
  set [] i v = []
  set (x ∷ xs) zero v = v ∷ xs
  set (x ∷ xs) (suc i) v = x ∷ set xs i v

  -- `resize` of a vector: cut at `n`, or filled up to `n` with `d`.
  abbrev pub resize : ℕ → A → List A → List A
  resize zero d xs = []
  resize (suc n) d [] = d ∷ resize n d []
  resize (suc n) d (x ∷ xs) = x ∷ resize n d xs

  abbrev pub get_elem? : List A → ℕ → Option A
  get_elem? [] i = none
  get_elem? (x ∷ xs) zero = some x
  get_elem? (x ∷ xs) (suc i) = get_elem? xs i

  abbrev pub remove_at : List A → ℕ → List A
  remove_at [] i = []
  remove_at (x ∷ xs) zero = xs
  remove_at (x ∷ xs) (suc i) = x ∷ remove_at xs i

  abbrev pub take : ℕ → List A → List A
  take zero xs = []
  take (suc n) [] = []
  take (suc n) (x ∷ xs) = x ∷ take n xs

  abbrev pub drop : ℕ → List A → List A
  drop zero xs = xs
  drop (suc n) [] = []
  drop (suc n) (x ∷ xs) = drop n xs

module _ {ℓ} {A : Type ℓ} where
  pub append_nil : (xs : List A) → xs ++ [] ≡ xs
  append_nil [] = refl
  append_nil (x ∷ xs) = rw (append_nil xs)

  pub append_assoc : (xs ys zs : List A) → (xs ++ ys) ++ zs ≡ xs ++ (ys ++ zs)
  append_assoc [] ys zs = refl
  append_assoc (x ∷ xs) ys zs = rw (append_assoc xs ys zs)

  pub length-append : (xs ys : List A) → length (xs ++ ys) ≡ length xs + length ys
  length-append [] ys = omega arith
  length-append (x ∷ xs) ys = omega (arith, length-append xs ys)

  pub length-set : (xs : List A) (i : ℕ) (v : A) → length (set xs i v) ≡ length xs
  length-set [] i v = refl
  length-set (x ∷ xs) zero v = refl
  length-set (x ∷ xs) (suc i) v = ap suc (length-set xs i v)

  pub length-resize : (n : ℕ) (d : A) (xs : List A) → length (resize n d xs) ≡ n
  length-resize zero d xs = refl
  length-resize (suc n) d [] = ap suc (length-resize n d [])
  length-resize (suc n) d (x ∷ xs) = ap suc (length-resize n d xs)

  pub get_or-set_self :
      (xs : List A) (i : ℕ) (v d : A) → i < length xs → get_or (set xs i v) i d ≡ v
  get_or-set_self [] i v d h = absurd (omega arith)
  get_or-set_self (x ∷ xs) zero v d h = refl
  get_or-set_self (x ∷ xs) (suc i) v d h = get_or-set_self xs i v d (omega arith)

  pub get_or-set_ne :
      (xs : List A) (i j : ℕ) (v d : A) → i ≢ j → get_or (set xs i v) j d ≡ get_or xs j d
  get_or-set_ne [] i j v d h = refl
  get_or-set_ne (x ∷ xs) zero zero v d h = absurd (h refl)
  get_or-set_ne (x ∷ xs) zero (suc j) v d h = refl
  get_or-set_ne (x ∷ xs) (suc i) zero v d h = refl
  get_or-set_ne (x ∷ xs) (suc i) (suc j) v d h = get_or-set_ne xs i j v d (λ e. h (ap suc e))

  -- Growing a vector with its default leaves every reading as it was.
  pub get_or-resize :
      (n : ℕ) (d : A) (xs : List A) (j : ℕ)
      → length xs ≤ n
      → get_or (resize n d xs) j d ≡ get_or xs j d
  get_or-resize zero d [] j h = refl
  get_or-resize zero d (x ∷ xs) j h = absurd (omega arith)
  get_or-resize (suc n) d [] zero h = refl
  get_or-resize (suc n) d [] (suc j) h = get_or-resize n d [] j (omega arith)
  get_or-resize (suc n) d (x ∷ xs) zero h = refl
  get_or-resize (suc n) d (x ∷ xs) (suc j) h = get_or-resize n d xs j (omega arith)

  pub take-append-drop : (n : ℕ) (xs : List A) → take n xs ++ drop n xs ≡ xs
  take-append-drop zero xs = refl
  take-append-drop (suc n) [] = refl
  take-append-drop (suc n) (x ∷ xs) = ap (λ l. x ∷ l) (take-append-drop n xs)

  pub length-drop : (n : ℕ) (xs : List A) → length (drop n xs) ≡ length xs - n
  length-drop zero xs = omega arith
  length-drop (suc n) [] = omega arith
  length-drop (suc n) (x ∷ xs) = omega (arith, length-drop n xs)

  -- A sum over a list changes at one place by the change of the entry there.
  abbrev pub total : (A → ℕ) → List A → ℕ
  total w [] = 0
  total w (x ∷ xs) = w x + total w xs

  pub total-set :
      (w : A → ℕ) (xs : List A) (i : ℕ) (v d : A)
      → i < length xs
      → total w (set xs i v) + w (get_or xs i d) ≡ total w xs + w v
  total-set w [] i v d h = absurd (omega arith)
  total-set w (x ∷ xs) zero v d h = omega arith
  total-set w (x ∷ xs) (suc i) v d h = omega (arith, total-set w xs i v d (omega arith))

  pub get_or-beyond : (xs : List A) (i : ℕ) (d : A) → length xs ≤ i → get_or xs i d ≡ d
  get_or-beyond [] i d h = refl
  get_or-beyond (x ∷ xs) zero d h = absurd (omega arith)
  get_or-beyond (x ∷ xs) (suc i) d h = get_or-beyond xs i d (omega arith)

  -- The same wherever the place is, if beyond the end nothing of weight is written.
  pub total-set_any :
      (w : A → ℕ) (xs : List A) (i : ℕ) (v d : A)
      → (length xs ≤ i → w v ≡ w d)
      → total w (set xs i v) + w (get_or xs i d) ≡ total w xs + w v
  total-set_any w [] i v d h = omega (arith, h (omega arith))
  total-set_any w (x ∷ xs) zero v d h = omega arith
  total-set_any w (x ∷ xs) (suc i) v d h =
      omega (arith, total-set_any w xs i v d (λ k. h (omega arith)))

  pub total-resize :
      (w : A → ℕ) (n : ℕ) (d : A) (xs : List A)
      → w d ≡ 0
      → length xs ≤ n
      → total w (resize n d xs) ≡ total w xs
  total-resize w zero d [] e h = refl
  total-resize w zero d (x ∷ xs) e h = absurd (omega arith)
  total-resize w (suc n) d [] e h = omega (arith, total-resize w n d [] e (omega arith))
  total-resize w (suc n) d (x ∷ xs) e h = omega (arith, total-resize w n d xs e (omega arith))

  pub total-append : (w : A → ℕ) (xs ys : List A) → total w (xs ++ ys) ≡ total w xs + total w ys
  total-append w [] ys = omega arith
  total-append w (x ∷ xs) ys = omega (arith, total-append w xs ys)

  pub get_or-append :
      (xs ys : List A) (i : ℕ) (d : A) → i < length xs → get_or (xs ++ ys) i d ≡ get_or xs i d
  get_or-append [] ys i d h = absurd (omega arith)
  get_or-append (x ∷ xs) ys zero d h = refl
  get_or-append (x ∷ xs) ys (suc i) d h = get_or-append xs ys i d (omega arith)

  pub get_or-last : (xs : List A) (y d : A) → get_or (xs ++ y ∷ []) (length xs) d ≡ y
  get_or-last [] y d = refl
  get_or-last (x ∷ xs) y d = get_or-last xs y d

  pub set-last : (xs : List A) (y v : A) → set (xs ++ y ∷ []) (length xs) v ≡ xs ++ v ∷ []
  set-last [] y v = refl
  set-last (x ∷ xs) y v = ap (λ l. x ∷ l) (set-last xs y v)

  pub length-remove_at :
      (xs : List A) (i : ℕ) {x : A}
      → get_elem? xs i ≡ some x
      → suc (length (remove_at xs i)) ≡ length xs
  length-remove_at [] i h = cc
  length-remove_at (x ∷ xs) zero h = refl
  length-remove_at (x ∷ xs) (suc i) h = ap suc (length-remove_at xs i h)

  pub get_elem?-lt : (xs : List A) (i : ℕ) {x : A} → get_elem? xs i ≡ some x → i < length xs
  get_elem?-lt [] i h = cc
  get_elem?-lt (x ∷ xs) zero h = omega arith
  get_elem?-lt (x ∷ xs) (suc i) h = omega (arith, get_elem?-lt xs i h)

  pub total-remove_at :
      (w : A → ℕ) (xs : List A) (k : ℕ) {x : A}
      → get_elem? xs k ≡ some x
      → total w (remove_at xs k) + w x ≡ total w xs
  total-remove_at w [] k h = cc
  total-remove_at w (x ∷ xs) zero h = head (some_inj.0 h)
    where
      head : {y : A} → x ≡ y → total w xs + w y ≡ w x + total w xs
      head e = omega (arith, ap w e)
  total-remove_at w (x ∷ xs) (suc k) h = omega (arith, total-remove_at w xs k h)

  abbrev pub All {κ} : (A → Type κ) → List A → Type (κ)
  All P [] = Unit
  All P (x ∷ xs) = P x × All P xs

  pub set-All {κ} :
      (P : A → Type κ) (xs : List A) (i : ℕ) (v : A) → All P xs → P v → All P (set xs i v)
  set-All P [] i v h p = tt
  set-All P (x ∷ xs) zero v (h, hs) p = (p, hs)
  set-All P (x ∷ xs) (suc i) v (h, hs) p = (h, set-All P xs i v hs p)

  pub append-All {κ} :
      (P : A → Type κ) (xs : List A) (v : A) → All P xs → P v → All P (xs ++ v ∷ [])
  append-All P [] v h p = (p, tt)
  append-All P (x ∷ xs) v (h, hs) p = (h, append-All P xs v hs p)

  pub get_or-All {κ} :
      (P : A → Type κ) (xs : List A) (i : ℕ) (d : A) → All P xs → P d → P (get_or xs i d)
  get_or-All P [] i d h p = p
  get_or-All P (x ∷ xs) zero d (h, hs) p = h
  get_or-All P (x ∷ xs) (suc i) d (h, hs) p = get_or-All P xs i d hs p
