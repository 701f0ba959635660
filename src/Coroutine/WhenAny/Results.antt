-- ===== src/Coroutine/WhenAny/Results.antt =====
-- The result that the coroutine which awaits `when_any` finds.
use iocoro.Base.{
  ℕ, ◌<◌, ◌≡◌, refl, sym, ap, ◌∙◌, Bool, true, false, Option, none, some, arith, from_some,
}
use iocoro.Coroutine.WhenAll.{
  WaiterAddr, null, waiter, done_sentinel, WaiterPc, before, not_ready, checked, suspended, passed,
}
use iocoro.Coroutine.WhenAny.{
  Winner, nobody, storing, completing, over, System, try_complete, Event, finishes, stores,
  completes, asks, registers, start, finish_from, store_from, complete_from, ask_from,
  register_from, step, Reach, here, next,
}

abbrev won : Winner → Bool
won nobody = false
won (storing i) = true
won (completing i) = true
won (over i) = true

-- What the winner has stored.
abbrev stored_by : Winner → Option ℕ
stored_by nobody = none
stored_by (storing i) = none
stored_by (completing i) = some i
stored_by (over i) = some i

abbrev is_over : Winner → Bool
is_over nobody = false
is_over (storing i) = false
is_over (completing i) = false
is_over (over i) = true

record Inv (s : System) : Type 0 where
  flagged : s.done ≡ won s.winner
  stored : s.result ≡ stored_by s.winner
  resumed : 0 < s.resumes → is_over s.winner ≡ true

start-Inv : Inv start
start-Inv = record { flagged = refl; stored = refl; resumed = λ h. absurd (omega (arith, h)) }

finish-Inv :
    (s : System) (i : ℕ) (d : Bool) (w : Winner)
    → s.done ≡ d
    → s.winner ≡ w
    → Inv s
    → Inv (finish_from s i (try_complete d))
unfolding finish_from try_complete
finish-Inv s i true w e f v = record {
  flagged = sym e ∙ v.flagged;
  stored = v.stored;
  resumed = v.resumed;
}
finish-Inv s i false nobody e f v = record {
  flagged = refl;
  stored = v.stored ∙ ap stored_by f;
  resumed = λ h. cc (v.resumed h);
}
finish-Inv s i false (storing j) e f v = let q : false ≡ true = sym e ∙ v.flagged ∙ ap won f in cc
finish-Inv s i false (completing j) e f v =
    let q : false ≡ true = sym e ∙ v.flagged ∙ ap won f in cc
finish-Inv s i false (over j) e f v = let q : false ≡ true = sym e ∙ v.flagged ∙ ap won f in cc

store-Inv : (s t : System) (w : Winner) → s.winner ≡ w → Inv s → store_from s w ≡ some t → Inv t
unfolding store_from
store-Inv s t (storing i) e v h =
    from_some Inv {a = record s { result = some i; winner = completing i }}
      (record {
        flagged = v.flagged ∙ ap won e;
        stored = refl;
        resumed = λ k. sym (ap is_over e) ∙ v.resumed k;
      })
      h
store-Inv s t nobody e v h = cc
store-Inv s t (completing i) e v h = cc
store-Inv s t (over i) e v h = cc

complete-Inv :
    (s t : System) (w : Winner) → s.winner ≡ w → Inv s → complete_from s w ≡ some t → Inv t
unfolding complete_from
complete-Inv s t (completing i) e v h =
    from_some Inv
      (record {
        flagged = v.flagged ∙ ap won e;
        stored = v.stored ∙ ap stored_by e;
        resumed = λ k. refl;
      })
      h
complete-Inv s t nobody e v h = cc
complete-Inv s t (storing i) e v h = cc
complete-Inv s t (over i) e v h = cc

ask-Inv : (s t : System) (c : WaiterPc) → Inv s → ask_from s c ≡ some t → Inv t
unfolding ask_from
ask-Inv s t before v h =
    from_some Inv (record { flagged = v.flagged; stored = v.stored; resumed = v.resumed }) h
ask-Inv s t not_ready v h =
    from_some Inv (record { flagged = v.flagged; stored = v.stored; resumed = v.resumed }) h
ask-Inv s t checked v h = cc
ask-Inv s t suspended v h = cc
ask-Inv s t passed v h = cc

register-Inv :
    (s t : System) (c : WaiterPc) (a : WaiterAddr) → Inv s → register_from s c a ≡ some t → Inv t
unfolding register_from
register-Inv s t checked null v h =
    from_some Inv (record { flagged = v.flagged; stored = v.stored; resumed = v.resumed }) h
register-Inv s t checked done_sentinel v h =
    from_some Inv (record { flagged = v.flagged; stored = v.stored; resumed = v.resumed }) h
register-Inv s t checked waiter v h = cc
register-Inv s t before a v h = cc
register-Inv s t not_ready a v h = cc
register-Inv s t suspended a v h = cc
register-Inv s t passed a v h = cc

step-Inv : (s t : System) (e : Event) → Inv s → step s e ≡ some t → Inv t
unfolding step
step-Inv s t (finishes i) v h = from_some Inv (finish-Inv s i s.done s.winner refl refl v) h
step-Inv s t stores v h = store-Inv s t s.winner refl v h
step-Inv s t completes v h = complete-Inv s t s.winner refl v h
step-Inv s t asks v h = ask-Inv s t s.pc v h
step-Inv s t registers v h = register-Inv s t s.pc s.waiter_addr v h

reached-Inv : {s : System} → Reach s → Inv s
reached-Inv here = start-Inv
reached-Inv (next {s} {t} r e h) = step-Inv s t e (reached-Inv r) h

over-stored : (w : Winner) → is_over w ≡ true → (i : ℕ) × (w ≡ over i) × (stored_by w ≡ some i)
over-stored nobody e = cc
over-stored (storing i) e = cc
over-stored (completing i) e = cc
over-stored (over i) e = (i, refl, refl)

-- A coroutine that `when_any` has resumed finds the result of the child whose `try_complete` was
-- first: in every interleaving, where a resumption has been posted, one child has won and its result is stored.
pub resumed_with_result :
    (s : System) → Reach s → 0 < s.resumes → (i : ℕ) × (s.winner ≡ over i) × (s.result ≡ some i)
resumed_with_result s r h =
    let v = reached-Inv r in
    let (i, e, f) = over-stored s.winner (v.resumed h) in (i, e, v.stored ∙ f)

-- A coroutine that is not suspended may go on too early: whichever child wins, there is a
-- course of events after which the coroutine has passed the await while the winner has not stored its
-- result, so that it reads none.
pub passed_without_result :
    (i : ℕ) → (s : System) × Reach s × (s.pc ≡ passed) × (s.winner ≡ storing i) × (s.result ≡ none)
unfolding step finish_from try_complete ask_from
passed_without_result i = (
  record start { done = true; winner = storing i; pc = passed },
  next (next here (finishes i) refl) asks refl,
  refl,
  refl,
  refl,
)
