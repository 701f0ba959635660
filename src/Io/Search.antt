-- ===== src/Io/Search.antt =====
-- The searches of include/iocoro/io/read_until.hpp. `none` stands for `npos`.
use iocoro.Base.{
  ℕ, zero, suc, ◌+◌, ◌-◌, ◌≤◌, ◌<◌, ◌≡◌, refl, sym, ap, ◌∙◌, Bool, true, false, ◌&&◌, Option, none,
  some, List, [], ◌∷◌, ◌++◌, arith, ltb, ◌==◌, if◌then◌else◌, length, drop, Bool-cases,
  Option-cases, inl, inr,
}

abbrev pub shift : ℕ → Option ℕ → Option ℕ
shift k none = none
shift k (some p) = some (k + p)

-- `std::memchr`.
pub find_byte_in_span : List ℕ → ℕ → Option ℕ
find_byte_in_span [] b = none
find_byte_in_span (x ∷ xs) b =
    let rest = find_byte_in_span xs b in if x == b then some 0 else shift 1 rest

abbrev pub is_prefix : List ℕ → List ℕ → Bool
is_prefix [] xs = true
is_prefix (y ∷ ys) [] = false
is_prefix (y ∷ ys) (x ∷ xs) = (x == y) && is_prefix ys xs

-- `std::search`, for a pattern that is not empty.
abbrev pub search : List ℕ → List ℕ → Option ℕ
search [] ys = none
search (x ∷ xs) ys =
    let rest = search xs ys in if is_prefix ys (x ∷ xs) then some 0 else shift 1 rest

pub find_in_span : List ℕ → List ℕ → Option ℕ
find_in_span xs [] = none
find_in_span xs (y ∷ []) = if ltb (length xs) 1 then none else find_byte_in_span xs y
find_in_span xs (y ∷ z ∷ ys) =
    if ltb (length xs) (suc (suc (length ys))) then none else search xs (y ∷ z ∷ ys)

shift-shift : (j k : ℕ) (o : Option ℕ) → shift j (shift k o) ≡ shift (j + k) o
shift-shift j k none = refl
shift-shift j k (some p) = ap some (omega arith)

shift-le : (k : ℕ) (o : Option ℕ) (p : ℕ) → shift k o ≡ some p → k ≤ p
shift-le k none p h = cc
shift-le k (some q) p h = ground arith

pub shift_zero : (o : Option ℕ) → shift 0 o ≡ o
shift_zero none = refl
shift_zero (some p) = ap some (omega arith)

find_byte-search : (xs : List ℕ) (y : ℕ) → find_byte_in_span xs y ≡ search xs (y ∷ [])
unfolding find_byte_in_span
find_byte-search [] y = refl
find_byte-search (x ∷ xs) y = ground (arith, find_byte-search xs y)

is_prefix-length : (ys xs : List ℕ) → length xs < length ys → is_prefix ys xs ≡ false
is_prefix-length [] xs h = absurd (omega (arith, h))
is_prefix-length (y ∷ ys) [] h = refl
is_prefix-length (y ∷ ys) (x ∷ xs) h = ground (arith, is_prefix-length ys xs (omega arith))

pub search-short : (xs ys : List ℕ) → length xs < length ys → search xs ys ≡ none
search-short [] ys h = refl
search-short (x ∷ xs) ys h =
    ground (arith, is_prefix-length ys (x ∷ xs) h, search-short xs ys (omega arith))

-- `find_in_span`, with its early exits and its special case for one byte, finds the first
-- occurrence of any delimiter that is not empty.
pub find_in_span-search :
    (xs : List ℕ) (y : ℕ) (ys : List ℕ) → find_in_span xs (y ∷ ys) ≡ search xs (y ∷ ys)
unfolding find_in_span
find_in_span-search xs y [] = ground (arith, find_byte-search xs y, search-short xs (y ∷ []))
find_in_span-search xs y (z ∷ ys) = ground (arith, search-short xs (y ∷ z ∷ ys))

pub find_in_span-byte : (xs : List ℕ) (y : ℕ) → find_in_span xs (y ∷ []) ≡ find_byte_in_span xs y
find_in_span-byte xs y = find_in_span-search xs y [] ∙ sym (find_byte-search xs y)

is_prefix-append :
    (ys xs zs : List ℕ) → length ys ≤ length xs → is_prefix ys (xs ++ zs) ≡ is_prefix ys xs
is_prefix-append [] xs zs h = refl
is_prefix-append (y ∷ ys) [] zs h = absurd (omega (arith, h))
is_prefix-append (y ∷ ys) (x ∷ xs) zs h = rw (is_prefix-append ys xs zs (omega arith)) refl

is_prefix-le : (ys xs : List ℕ) → is_prefix ys xs ≡ true → length ys ≤ length xs
is_prefix-le [] xs h = omega arith
is_prefix-le (y ∷ ys) [] h = cc
is_prefix-le (y ∷ ys) (x ∷ xs) h = ground (arith, is_prefix-le ys xs)

-- An occurrence ends inside the data.
pub search-le : (xs ys : List ℕ) (p : ℕ) → search xs ys ≡ some p → p + length ys ≤ length xs
search-le [] ys p h = cc
search-le (x ∷ xs) ys p h = elim (Bool-cases (is_prefix ys (x ∷ xs))) [
  | inl e ↦ ground (arith, e, is_prefix-le ys (x ∷ xs) e)
  | inr e ↦ elim (Option-cases (search xs ys)) [
    | inl n ↦ ground (arith, e, n)
    | inr (q, f) ↦ ground (arith, e, f, search-le xs ys q f)
  ]
]

-- An occurrence in the first part is the first occurrence in the whole.
pub search-append :
    (xs zs ys : List ℕ) (p : ℕ) → search xs ys ≡ some p → search (xs ++ zs) ys ≡ some p
search-append [] zs ys p h = cc
search-append (x ∷ xs) zs ys p h = elim (Bool-cases (is_prefix ys (x ∷ xs))) [
  | inl e ↦ ground (arith, e, is_prefix-append ys (x ∷ xs) zs (is_prefix-le ys (x ∷ xs) e))
  | inr e ↦ elim (Option-cases (search xs ys)) [
    | inl n ↦ ground (arith, e, n)
    | inr (q, f) ↦
        let inside = search-le xs ys q f in
        let same = is_prefix-append ys (x ∷ xs) zs (omega (arith, inside)) in
        ground (arith, e, f, same, search-append xs zs ys q f)
  ]
]

search-none :
    (x : ℕ) (xs ys : List ℕ)
    → search (x ∷ xs) ys ≡ none
    → (is_prefix ys (x ∷ xs) ≡ false) × (search xs ys ≡ none)
search-none x xs ys h = ground arith

-- Where the first part has no occurrence, the search of the whole may skip all positions at which an
-- occurrence would end inside it.
pub search-skip :
    (k : ℕ) (xs zs ys : List ℕ)
    → 0 < length ys
    → search xs ys ≡ none
    → k + length ys ≤ suc (length xs)
    → search (xs ++ zs) ys ≡ shift k (search (drop k (xs ++ zs)) ys)
search-skip zero xs zs ys n h b = sym (shift_zero (search (xs ++ zs) ys))
search-skip (suc k) [] zs ys n h b = absurd (omega (arith, b))
search-skip (suc k) (x ∷ xs) zs ys n h b =
    let (e, f) = search-none x xs ys h in
    rw
      (
        is_prefix-append ys (x ∷ xs) zs (omega (arith, b)),
        e,
        search-skip k xs zs ys n f (omega (arith, b)),
      )
      (shift-shift 1 k (search (drop k (xs ++ zs)) ys)
        ∙ ap (λ j. shift j (search (drop k (xs ++ zs)) ys)) (omega arith))

-- The first occurrence in the whole, where it ends inside the first part, is an occurrence there.
pub search-inside :
    (xs zs ys : List ℕ) (p : ℕ)
    → 0 < length ys
    → search (xs ++ zs) ys ≡ some p
    → p + length ys ≤ length xs
    → search xs ys ≡ some p
search-inside xs zs ys p n h b = elim (Option-cases (search xs ys)) [
  | inl e ↦
      let skipped = search-skip (suc (length xs) - length ys) xs zs ys n e (omega (arith, b)) in
      absurd (
        omega (
          arith,
          n,
          b,
          shift-le (suc (length xs) - length ys)
              (search (drop (suc (length xs) - length ys) (xs ++ zs)) ys) p (sym skipped ∙ h),
        ))
  | inr (q, e) ↦ e ∙ sym (search-append xs zs ys q e) ∙ h
]
