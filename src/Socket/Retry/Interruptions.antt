-- ===== src/Socket/Retry/Interruptions.antt =====
-- Interrupted system calls, and cancelled operations, in the loop of the socket operations.
use iocoro.Base.{
  ℕ, ◌≡◌, refl, ap, Bool, true, false, Option, none, some, List, [], ◌∷◌, ◌++◌, Bool-cases, inl,
  inr, if◌then◌else◌, is_some,
}
use mathlib.Core.Path.{fun_ext}
use iocoro.Socket.Utils.{eintr, Error, operation_aborted, Result, fail, map_socket_errno}
use iocoro.Socket.Retry.{
  Answer, counts, fails, blocks, Turn, apply_all, after_wait, after_call, retry_loop,
}

-- The state in which an operation ended, if it did, has the property.
abbrev pub Keeps {ℓ} : {S : Type 0} → (S → Type ℓ) → Option (S × Result ℕ) → Type ℓ
Keeps P none = Unit
Keeps P (some (s, r)) = P s

-- The result of an operation, if it ended, has the property.
abbrev pub Results {ℓ} : {S : Type 0} → (Result ℕ → Type ℓ) → Option (S × Result ℕ) → Type ℓ
Results R none = Unit
Results R (some (s, r)) = R r

pub if_lem {ℓ ℓ'} :
    {A : Type ℓ} (F : A → Type ℓ') (b : Bool) (x y : A) → F x → F y → F (if b then x else y)
if_lem F true x y p q = p
if_lem F false x y p q = q

module _ {C S : Type 0} (apply : C → S → S) (aborted : S → Bool) (counted : ℕ → Result ℕ)
    (wait_failed : Error → Result ℕ) where
  retry_loop-cons :
      (t : Turn C) (ts : List (Turn C)) (s : S)
      → retry_loop apply aborted counted wait_failed (t ∷ ts) s ≡ (
          if aborted (apply_all apply t.calls s)
          then some (apply_all apply t.calls s, fail operation_aborted)
          else after_call apply aborted counted wait_failed
              (λ v. retry_loop apply aborted counted wait_failed ts v)
              (apply_all apply t.calls s)
              t.answer)
  unfolding retry_loop
  retry_loop-cons t ts s = refl

  split-here :
      (cs : List C) (a : Answer C) (ts : List (Turn C)) (s : S)
      → retry_loop apply aborted counted wait_failed
          (record { calls = cs; answer = fails eintr } ∷ record { calls = []; answer = a } ∷ ts)
          s
        ≡ retry_loop apply aborted counted wait_failed (record { calls = cs; answer = a } ∷ ts) s
  unfolding retry_loop apply_all
  split-here cs a ts s = elim (Bool-cases (aborted (apply_all apply cs s))) [
    | inl e ↦ rw (e, retry_loop) refl
    | inr e ↦ rw (e, retry_loop) refl
  ]

  turn-next :
      (f g : S → Option (S × Result ℕ)) (s : S) (a : Answer C)
      → ((v : S) → f v ≡ g v)
      → after_call apply aborted counted wait_failed f s a
        ≡ after_call apply aborted counted wait_failed g s a
  turn-next f g s a h = ap (λ k. after_call apply aborted counted wait_failed k s a) (fun_ext h)

  -- An interruption by a signal changes nothing, at any turn: the system call is made again.
  pub retry_loop-eintr :
      (pre : List (Turn C)) (cs : List C) (a : Answer C) (ts : List (Turn C)) (s : S)
      → retry_loop apply aborted counted wait_failed
          (pre
            ++ record { calls = cs; answer = fails eintr } ∷ record { calls = []; answer = a } ∷ ts)
          s
        ≡ retry_loop apply aborted counted wait_failed
            (pre ++ record { calls = cs; answer = a } ∷ ts)
            s
  retry_loop-eintr [] cs a ts s = split-here cs a ts s
  retry_loop-eintr (t ∷ pre) cs a ts s =
      rw
        (
          retry_loop-cons t
              (pre
                ++ record { calls = cs; answer = fails eintr }
                  ∷ record { calls = []; answer = a }
                  ∷ ts)
              s,
          retry_loop-cons t (pre ++ record { calls = cs; answer = a } ∷ ts) s,
          turn-next
              (λ v.
                retry_loop apply aborted counted wait_failed
                  (pre
                    ++ record { calls = cs; answer = fails eintr }
                      ∷ record { calls = []; answer = a }
                      ∷ ts)
                  v)
              (λ v.
                retry_loop apply aborted counted wait_failed
                  (pre ++ record { calls = cs; answer = a } ∷ ts) v)
              (apply_all apply t.calls s) t.answer (λ v. retry_loop-eintr pre cs a ts v),
        )
        refl

  stop-here :
      (cs : List C) (a b : Answer C) (ts us : List (Turn C)) (s : S)
      → ((v : S) → aborted (apply_all apply cs v) ≡ true)
      → retry_loop apply aborted counted wait_failed (record { calls = cs; answer = a } ∷ ts) s
        ≡ retry_loop apply aborted counted wait_failed (record { calls = cs; answer = b } ∷ us) s
  unfolding retry_loop
  stop-here cs a b ts us s h = rw (h s, retry_loop) refl

  -- Past calls that cancel the operation, neither the answer of the system call nor any later turn is
  -- looked at.
  pub retry_loop-stops :
      (pre : List (Turn C)) (cs : List C) (a b : Answer C) (ts us : List (Turn C)) (s : S)
      → ((v : S) → aborted (apply_all apply cs v) ≡ true)
      → retry_loop apply aborted counted wait_failed
          (pre ++ record { calls = cs; answer = a } ∷ ts)
          s
        ≡ retry_loop apply aborted counted wait_failed
            (pre ++ record { calls = cs; answer = b } ∷ us)
            s
  retry_loop-stops [] cs a b ts us s h = stop-here cs a b ts us s h
  retry_loop-stops (t ∷ pre) cs a b ts us s h =
      rw
        (
          retry_loop-cons t (pre ++ record { calls = cs; answer = a } ∷ ts) s,
          retry_loop-cons t (pre ++ record { calls = cs; answer = b } ∷ us) s,
          turn-next
              (λ v.
                retry_loop apply aborted counted wait_failed
                  (pre ++ record { calls = cs; answer = a } ∷ ts) v)
              (λ v.
                retry_loop apply aborted counted wait_failed
                  (pre ++ record { calls = cs; answer = b } ∷ us) v)
              (apply_all apply t.calls s) t.answer (λ v. retry_loop-stops pre cs a b ts us v h),
        )
        refl

  -- What the other threads' calls keep, the loop keeps.
  module _ {ℓ} (P : S → Type ℓ) (keep : (c : C) (s : S) → P s → P (apply c s)) where
    apply_all-keeps : (cs : List C) (s : S) → P s → P (apply_all apply cs s)
    unfolding apply_all
    apply_all-keeps [] s h = h
    apply_all-keeps (c ∷ cs) s h = apply_all-keeps cs (apply c s) (keep c s h)

    after_wait-Keeps :
        (next : S → Option (S × Result ℕ))
        → ((v : S) → P v → Keeps P (next v))
        → (s : S) (r : Option Error) → P s
        → Keeps P (after_wait apply aborted counted wait_failed next s r)
    after_wait-Keeps next k s (some e) h = h
    after_wait-Keeps next k s none h = elim (Bool-cases (aborted s)) [
      | inl e ↦ rw e h
      | inr e ↦ rw e (k s h)
    ]

    after_call-Keeps :
        (next : S → Option (S × Result ℕ))
        → ((v : S) → P v → Keeps P (next v))
        → (s : S) (a : Answer C) → P s
        → Keeps P (after_call apply aborted counted wait_failed next s a)
    after_call-Keeps next k s (counts n) h = h
    after_call-Keeps next k s (fails eintr) h = k s h
    after_call-Keeps next k s (fails e) h = h
    after_call-Keeps next k s (blocks cs r) h =
        after_wait-Keeps next k (apply_all apply cs s) r (apply_all-keeps cs s h)

    pub retry_loop-Keeps :
        (ts : List (Turn C)) (s : S)
        → P s
        → Keeps P (retry_loop apply aborted counted wait_failed ts s)
    unfolding retry_loop
    retry_loop-Keeps [] s h = tt
    retry_loop-Keeps (t ∷ ts) s h = elim (Bool-cases (aborted (apply_all apply t.calls s))) [
      | inl e ↦ rw e (apply_all-keeps t.calls s h)
      | inr e ↦ rw e (
          after_call-Keeps (λ v. retry_loop apply aborted counted wait_failed ts v)
            (λ v p. retry_loop-Keeps ts v p) (apply_all apply t.calls s) t.answer
            (apply_all-keeps t.calls s h))
    ]

  after_wait-is_some :
      (next : S → Option (S × Result ℕ))
      → ((v : S) → is_some (next v) ≡ true)
      → (s : S) (r : Option Error)
      → is_some (after_wait apply aborted counted wait_failed next s r) ≡ true
  after_wait-is_some next k s (some e) = refl
  after_wait-is_some next k s none = elim (Bool-cases (aborted s)) [
    | inl e ↦ rw e refl
    | inr e ↦ rw e (k s)
  ]

  after_call-is_some :
      (next : S → Option (S × Result ℕ))
      → ((v : S) → is_some (next v) ≡ true)
      → (s : S) (a : Answer C)
      → is_some (after_call apply aborted counted wait_failed next s a) ≡ true
  after_call-is_some next k s (counts n) = refl
  after_call-is_some next k s (fails eintr) = k s
  after_call-is_some next k s (fails e) = refl
  after_call-is_some next k s (blocks cs r) = after_wait-is_some next k (apply_all apply cs s) r

  -- A system call that counts is the last one: the loop ends there or before.
  pub retry_loop-is_some :
      (pre : List (Turn C)) (cs : List C) (n : ℕ) (ts : List (Turn C)) (s : S)
      → is_some (
          retry_loop apply aborted counted wait_failed
            (pre ++ record { calls = cs; answer = counts n } ∷ ts)
            s)
        ≡ true
  unfolding retry_loop
  retry_loop-is_some [] cs n ts s = elim (Bool-cases (aborted (apply_all apply cs s))) [
    | inl e ↦ rw e refl
    | inr e ↦ rw e refl
  ]
  retry_loop-is_some (t ∷ pre) cs n ts s = elim (Bool-cases (aborted (apply_all apply t.calls s))) [
    | inl e ↦ rw e refl
    | inr e ↦ rw e (
        after_call-is_some
          (λ v.
            retry_loop apply aborted counted wait_failed
              (pre ++ record { calls = cs; answer = counts n } ∷ ts) v)
          (λ v. retry_loop-is_some pre cs n ts v) (apply_all apply t.calls s) t.answer)
  ]

  -- What every result has that the loop can give, the result that it gives has.
  module _ {ℓ} (R : Result ℕ → Type ℓ) (of_count : (n : ℕ) → R (counted n))
      (of_wait : (e : Error) → R (wait_failed e)) (of_fail : (e : Error) → R (fail e)) where
    after_wait-Results :
        (next : S → Option (S × Result ℕ))
        → ((v : S) → Results R (next v))
        → (s : S) (r : Option Error)
        → Results R (after_wait apply aborted counted wait_failed next s r)
    after_wait-Results next k s (some e) = of_wait e
    after_wait-Results next k s none = elim (Bool-cases (aborted s)) [
      | inl e ↦ rw e (of_fail operation_aborted)
      | inr e ↦ rw e (k s)
    ]

    after_call-Results :
        (next : S → Option (S × Result ℕ))
        → ((v : S) → Results R (next v))
        → (s : S) (a : Answer C) → Results R (after_call apply aborted counted wait_failed next s a)
    after_call-Results next k s (counts n) = of_count n
    after_call-Results next k s (fails eintr) = k s
    after_call-Results next k s (fails e) = of_fail (map_socket_errno e)
    after_call-Results next k s (blocks cs r) = after_wait-Results next k (apply_all apply cs s) r

    pub retry_loop-Results :
        (ts : List (Turn C)) (s : S) → Results R (retry_loop apply aborted counted wait_failed ts s)
    unfolding retry_loop
    retry_loop-Results [] s = tt
    retry_loop-Results (t ∷ ts) s = elim (Bool-cases (aborted (apply_all apply t.calls s))) [
      | inl e ↦ rw e (of_fail operation_aborted)
      | inr e ↦ rw e (
          after_call-Results (λ v. retry_loop apply aborted counted wait_failed ts v)
            (λ v. retry_loop-Results ts v) (apply_all apply t.calls s) t.answer)
    ]
