-- ===== src/Coroutine/WhenAll/Resumption.antt =====
-- The awaiting coroutine of `when_all` is resumed exactly once.
use iocoro.Base.{
  subst, sym, ◌∙◌, ℕ, zero, suc, ◌+◌, ◌≤◌, ◌<◌, ◌≡◌, refl, Bool, true, false, some, ◌==◌,
  if◌then◌else◌, arith, from_some,
}
use iocoro.Coroutine.WhenAll.{
  WaiterAddr, null, waiter, done_sentinel, WaiterPc, before, not_ready, checked, suspended, passed,
  System, is_done, try_complete, complete, Event, finishes, completes, asks, registers, start,
  finish_from, complete_from, ask_from, register_from, step, Reach, here, next, bump,
}

abbrev published : WaiterAddr → ℕ
published null = 0
published waiter = 0
published done_sentinel = 1

-- The word, the place of the coroutine and the number of resumptions that go together.
abbrev Fits : WaiterAddr → WaiterPc → ℕ → Type 0
Fits null before r = r ≡ 0
Fits null not_ready r = r ≡ 0
Fits null checked r = r ≡ 0
Fits null suspended r = ⊥
Fits null passed r = r ≡ 0
Fits waiter before r = ⊥
Fits waiter not_ready r = ⊥
Fits waiter checked r = ⊥
Fits waiter suspended r = r ≡ 0
Fits waiter passed r = ⊥
Fits done_sentinel before r = r ≡ 0
Fits done_sentinel not_ready r = r ≡ 0
Fits done_sentinel checked r = r ≡ 0
Fits done_sentinel suspended r = r ≡ 1
Fits done_sentinel passed r = r ≡ 0

record Inv (s : System) : Type 0 where
  counted : s.remaining ≡ s.unfinished
  claimed : s.completing + published s.waiter_addr ≡ (if s.unfinished == 0 then 1 else 0)
  fits : Fits s.waiter_addr s.pc s.resumes
  past : s.pc ≡ passed → s.unfinished ≡ 0

start-Inv : (n : ℕ) → 0 < n → Inv (start n)
start-Inv n h = record { counted = refl; claimed = ground arith; fits = refl; past = λ e. cc }

try_complete-suc :
    (r n : ℕ) → r ≡ suc n → ((try_complete r).0 ≡ n) × ((try_complete r).1 ≡ (n == 0))
unfolding try_complete
try_complete-suc zero n e = absurd (omega (arith, e))
try_complete-suc (suc r) n e = ground arith

finish-Inv : (s t : System) (n : ℕ) → s.unfinished ≡ n → Inv s → finish_from s n ≡ some t → Inv t
unfolding finish_from
finish-Inv s t zero e v h = cc
finish-Inv s t (suc n) e v h =
    let (a, b) = try_complete-suc s.remaining n (v.counted ∙ e) in
    from_some Inv
      (record {
        counted = a;
        claimed = ground (arith, b, v.claimed);
        fits = v.fits;
        past = λ f. ground (arith, v.past f);
      })
      h

complete-Fits :
    (a : WaiterAddr) (c : WaiterPc) (r : ℕ)
    → published a ≡ 0
    → Fits a c r
    → Fits (complete a).0 c (bump (complete a).1 r)
unfolding complete
complete-Fits null before r e f = f
complete-Fits null not_ready r e f = f
complete-Fits null checked r e f = f
complete-Fits null suspended r e f = absurd f
complete-Fits null passed r e f = f
complete-Fits waiter before r e f = absurd f
complete-Fits waiter not_ready r e f = absurd f
complete-Fits waiter checked r e f = absurd f
complete-Fits waiter suspended r e f = omega (arith, f)
complete-Fits waiter passed r e f = absurd f
complete-Fits done_sentinel c r e f = absurd (omega (arith, e))

complete-published : (a : WaiterAddr) → published (complete a).0 ≡ 1
unfolding complete
complete-published null = refl
complete-published waiter = refl
complete-published done_sentinel = refl

complete-Inv :
    (s t : System) (k : ℕ) → s.completing ≡ k → Inv s → complete_from s k ≡ some t → Inv t
unfolding complete_from
complete-Inv s t zero e v h = cc
complete-Inv s t (suc k) e v h =
    from_some Inv
      (record {
        counted = v.counted;
        claimed = ground (arith, v.claimed, complete-published s.waiter_addr);
        fits = complete-Fits s.waiter_addr s.pc s.resumes (ground (arith, v.claimed)) v.fits;
        past = v.past;
      })
      h

before-Fits : (a : WaiterAddr) (r : ℕ) → Fits a before r → Fits a not_ready r × Fits a passed r
before-Fits null r f = (f, f)
before-Fits waiter r f = absurd f
before-Fits done_sentinel r f = (f, f)

not_ready-Fits : (a : WaiterAddr) (r : ℕ) → Fits a not_ready r → Fits a checked r × Fits a passed r
not_ready-Fits null r f = (f, f)
not_ready-Fits waiter r f = absurd f
not_ready-Fits done_sentinel r f = (f, f)

branch-Fits :
    (a : WaiterAddr) (b : Bool) (c d : WaiterPc) (r : ℕ)
    → Fits a c r
    → Fits a d r
    → Fits a (if b then c else d) r
branch-Fits a true c d r f g = f
branch-Fits a false c d r f g = g

move-Inv :
    (s : System) (c : WaiterPc)
    → Inv s
    → Fits s.waiter_addr c s.resumes
    → (c ≡ passed → s.unfinished ≡ 0)
    → Inv (record s { pc = c })
move-Inv s c v f p = record { counted = v.counted; claimed = v.claimed; fits = f; past = p }

ask-Inv : (s t : System) (c : WaiterPc) → s.pc ≡ c → Inv s → ask_from s c ≡ some t → Inv t
unfolding ask_from is_done
ask-Inv s t before e v h =
    let (f, g) =
      before-Fits s.waiter_addr s.resumes (subst (λ c. Fits s.waiter_addr c s.resumes) e v.fits) in
    from_some Inv
      (move-Inv s (if s.remaining == 0 then passed else not_ready) v
        (branch-Fits s.waiter_addr (s.remaining == 0) passed not_ready s.resumes g f)
        (λ k. ground (arith, v.counted)))
      h
ask-Inv s t not_ready e v h =
    let (f, g) =
      not_ready-Fits s.waiter_addr s.resumes
        (subst (λ c. Fits s.waiter_addr c s.resumes) e v.fits) in
    from_some Inv
      (move-Inv s (if s.remaining == 0 then passed else checked) v
        (branch-Fits s.waiter_addr (s.remaining == 0) passed checked s.resumes g f)
        (λ k. ground (arith, v.counted)))
      h
ask-Inv s t checked e v h = cc
ask-Inv s t suspended e v h = cc
ask-Inv s t passed e v h = cc

register-Inv :
    (s t : System) (c : WaiterPc) (a : WaiterAddr)
    → s.pc ≡ c
    → s.waiter_addr ≡ a
    → Inv s
    → register_from s c a ≡ some t
    → Inv t
unfolding register_from
register-Inv s t checked null e f v h =
    from_some Inv
      (record {
        counted = v.counted;
        claimed = ground (arith, v.claimed);
        fits = subst (λ c. Fits null c s.resumes) e (subst (λ a. Fits a s.pc s.resumes) f v.fits);
        past = λ g. cc;
      })
      h
register-Inv s t checked done_sentinel e f v h =
    from_some Inv
      (record {
        counted = v.counted;
        claimed = v.claimed;
        fits =
            subst (λ a. Fits a passed s.resumes) (sym f)
              (subst (λ c. Fits done_sentinel c s.resumes) e
                (subst (λ a. Fits a s.pc s.resumes) f v.fits));
        past = λ g. ground (arith, v.claimed);
      })
      h
register-Inv s t checked waiter e f v h = cc
register-Inv s t before a e f v h = cc
register-Inv s t not_ready a e f v h = cc
register-Inv s t suspended a e f v h = cc
register-Inv s t passed a e f v h = cc

step-Inv : (s t : System) (e : Event) → Inv s → step s e ≡ some t → Inv t
unfolding step
step-Inv s t finishes v h = finish-Inv s t s.unfinished refl v h
step-Inv s t completes v h = complete-Inv s t s.completing refl v h
step-Inv s t asks v h = ask-Inv s t s.pc refl v h
step-Inv s t registers v h = register-Inv s t s.pc s.waiter_addr refl refl v h

reached-Inv : {n : ℕ} {s : System} → 0 < n → Reach n s → Inv s
reached-Inv {n} p here = start-Inv n p
reached-Inv p (next {s} {t} r e h) = step-Inv s t e (reached-Inv p r) h

Fits-passed : (a : WaiterAddr) (r : ℕ) → Fits a passed r → r ≡ 0
Fits-passed null r f = f
Fits-passed waiter r f = absurd f
Fits-passed done_sentinel r f = f

Fits-le : (a : WaiterAddr) (c : WaiterPc) (r : ℕ) → Fits a c r → r ≤ published a
Fits-le null before r f = omega (arith, f)
Fits-le null not_ready r f = omega (arith, f)
Fits-le null checked r f = omega (arith, f)
Fits-le null suspended r f = absurd f
Fits-le null passed r f = omega (arith, f)
Fits-le waiter before r f = absurd f
Fits-le waiter not_ready r f = absurd f
Fits-le waiter checked r f = absurd f
Fits-le waiter suspended r f = omega (arith, f)
Fits-le waiter passed r f = absurd f
Fits-le done_sentinel before r f = omega (arith, f)
Fits-le done_sentinel not_ready r f = omega (arith, f)
Fits-le done_sentinel checked r f = omega (arith, f)
Fits-le done_sentinel suspended r f = omega (arith, f)
Fits-le done_sentinel passed r f = omega (arith, f)

-- In every interleaving of at least one child with the coroutine that awaits them, the coroutine
-- goes on only when all children are done and not more than once: it is resumed at most once and
-- only after every child has finished, and where it passes without being suspended every child has
-- finished too and it is never resumed.
pub resumed_once :
    (n : ℕ) (s : System)
    → 0 < n
    → Reach n s
    → (s.resumes ≤ 1)
      × (0 < s.resumes → s.unfinished ≡ 0)
      × (s.pc ≡ passed → (s.unfinished ≡ 0) × (s.resumes ≡ 0))
resumed_once n s p r =
    let v = reached-Inv p r in
    let le = Fits-le s.waiter_addr s.pc s.resumes v.fits in
    (
      ground (arith, v.claimed, le),
      λ h. ground (arith, v.claimed, le),
      λ e. (
        v.past e,
        Fits-passed s.waiter_addr s.resumes (subst (λ c. Fits s.waiter_addr c s.resumes) e v.fits),
      ),
    )

suspended-resumes : (a : WaiterAddr) (r : ℕ) → published a ≡ 1 → Fits a suspended r → r ≡ 1
suspended-resumes null r e f = absurd f
suspended-resumes waiter r e f = absurd (omega (arith, e))
suspended-resumes done_sentinel r e f = f

-- No resumption is lost: in every interleaving, once all children have finished and the last of them has called
-- `complete`, a coroutine that was suspended has been resumed, exactly once.
pub resumed_when_done :
    (n : ℕ) (s : System)
    → 0 < n
    → Reach n s
    → s.unfinished ≡ 0
    → s.completing ≡ 0
    → s.pc ≡ suspended
    → s.resumes ≡ 1
resumed_when_done n s p r u c e =
    let v = reached-Inv p r in
    suspended-resumes s.waiter_addr s.resumes (ground (arith, v.claimed))
      (subst (λ c. Fits s.waiter_addr c s.resumes) e v.fits)
