-- ===== src/Io/ByteByByte.antt =====
-- Streams that carry one byte at a time, for the tests of the operations.
use iocoro.Base.{
  ℕ, zero, suc, ◌≤◌, ◌<◌, ◌≡◌, refl, sym, ap, ◌∙◌, List, [], ◌∷◌, ◌++◌, arith, length, take,
  append_nil,
}
use iocoro.Io.{Answer, bytes, fails}
use iocoro.Io.ReadUntil.Occurrence.{InOrder}
use iocoro.Io.Transfer.{Taken, takes, write_fails}
use iocoro.Io.Transfer.Writes.{Sends}

abbrev pub read_one : List ℕ → ℕ → List ℕ × Answer
read_one [] k = ([], bytes [])
read_one (x ∷ xs) zero = (x ∷ xs, bytes [])
read_one (x ∷ xs) (suc k) = (xs, bytes (x ∷ []))

abbrev written : Answer → List ℕ
written (bytes cs) = cs
written (fails e) = []

pub read_one-order :
    (s t : List ℕ) (k : ℕ) (cs : List ℕ) → read_one s k ≡ (t, bytes cs) → s ≡ cs ++ t
read_one-order [] t k cs e = ap (λ a. written a.1 ++ a.0) e
read_one-order (x ∷ xs) t zero cs e = cc
read_one-order (x ∷ xs) t (suc k) cs e = ap (λ a. written a.1 ++ a.0) e

pub read_one-ends : (s t : List ℕ) (k : ℕ) → 0 < k → read_one s k ≡ (t, bytes []) → s ≡ []
read_one-ends [] t k b e = refl
read_one-ends (x ∷ xs) t zero b e = absurd (omega (arith, b))
read_one-ends (x ∷ xs) t (suc k) b e = cc

pub read_one-reliable : (s t : List ℕ) (k n : ℕ) → read_one s k ≡ (t, fails n) → ⊥
read_one-reliable [] t k n e = cc
read_one-reliable (x ∷ xs) t zero n e = cc
read_one-reliable (x ∷ xs) t (suc k) n e = cc

abbrev pub reads_one : InOrder (List ℕ) read_one
reads_one = record {
  coming = λ s. s;
  in_order = read_one-order;
  ends = read_one-ends;
  reliable = read_one-reliable;
}

pub read_one-fits :
    (s t : List ℕ) (k : ℕ) (cs : List ℕ) → read_one s k ≡ (t, bytes cs) → length cs ≤ k
read_one-fits [] t k cs e = ground (arith, ap (λ a. length (written a.1)) e)
read_one-fits (x ∷ xs) t zero cs e = ground (arith, ap (λ a. length (written a.1)) e)
read_one-fits (x ∷ xs) t (suc k) cs e = ground (arith, ap (λ a. length (written a.1)) e)

-- The state is what has been sent.
abbrev pub write_one : List ℕ → List ℕ → List ℕ × Taken
write_one s [] = (s, takes 0)
write_one s (x ∷ xs) = (s ++ x ∷ [], takes 1)

abbrev amount : Taken → ℕ
amount (takes n) = n
amount (write_fails e) = 0

pub write_one-sends :
    (s t buf : List ℕ) (n : ℕ) → write_one s buf ≡ (t, takes n) → t ≡ s ++ take n buf
write_one-sends s t [] n e =
    sym (ap (λ a. a.0) e) ∙ sym (append_nil s) ∙ ap (λ k. s ++ take k []) (ap (λ a. amount a.1) e)
write_one-sends s t (x ∷ xs) n e =
    sym (ap (λ a. a.0) e) ∙ ap (λ k. s ++ take k (x ∷ xs)) (ap (λ a. amount a.1) e)

pub write_one-some :
    (s t buf : List ℕ) (n : ℕ)
    → 0 < length buf
    → write_one s buf ≡ (t, takes n)
    → (0 < n) × (n ≤ length buf)
write_one-some s t [] n b e = absurd (omega (arith, b))
write_one-some s t (x ∷ xs) n b e = ground (arith, ap (λ a. amount a.1) e)

pub write_one-reliable : (s t buf : List ℕ) (k : ℕ) → write_one s buf ≡ (t, write_fails k) → ⊥
write_one-reliable s t [] k e = cc
write_one-reliable s t (x ∷ xs) k e = cc

abbrev pub writes_one : Sends (List ℕ) write_one
writes_one = record {
  sent = λ s. s;
  sends = write_one-sends;
  some_bytes = write_one-some;
  no_failure = write_one-reliable;
}
