-- ===== src/Reactor/Awaiter/Frame.antt =====
-- When await_suspend of include/iocoro/detail/operation_awaiter.hpp uses the coroutine's frame.
use iocoro.Base.{
  subst, suc, ◌≡◌, refl, ap, sym, ◌∙◌, Bool, true, false, Option, none, is_some, List, [], ◌∷◌,
  if◌then◌else◌,
}
use iocoro.Socket.Utils.{Error}
use iocoro.Socket.Retry.Interruptions.{if_lem}
use iocoro.Reactor.Awaiter.{
  Phase, registering, registered, returned, OperationWait, start, complete_done, complete_from,
  use_frame, watch_stop, suspend_from, request_stop, resume, Event, suspends, requests_stop,
  resumes, completes, step, run,
}

-- The executor runs posted tasks only after `await_suspend` has returned, as one whose only thread is
-- the reactor's does.
abbrev pub Serial : List Event → OperationWait → Type 0
Serial [] s = Unit
Serial (resumes ∷ es) s = (s.phase ≡ returned) × Serial es (step resumes s)
Serial (suspends ∷ es) s = Serial es (step suspends s)
Serial (requests_stop ∷ es) s = Serial es (step requests_stop s)
Serial (completes e ∷ es) s = Serial es (step (completes e) s)

-- Until `await_suspend` has returned, the coroutine has not been resumed.
abbrev Intact : Phase → OperationWait → Type 0
Intact returned s = s.late_uses ≡ 0
Intact registered s = (s.late_uses ≡ 0) × (s.resumed ≡ none)
Intact registering s = (s.late_uses ≡ 0) × (s.resumed ≡ none)

-- A step that leaves the phase, the resumption and the uses of the frame alone.
carry-Intact :
    (p : Phase) (s t : OperationWait)
    → t.late_uses ≡ s.late_uses
    → t.resumed ≡ s.resumed
    → Intact p s
    → Intact p t
carry-Intact returned s t l r h = l ∙ h
carry-Intact registered s t l r (h, k) = (l ∙ h, r ∙ k)
carry-Intact registering s t l r (h, k) = (l ∙ h, r ∙ k)

watch_stop-late_uses : (s : OperationWait) → (watch_stop s).late_uses ≡ s.late_uses
watch_stop-late_uses s =
    if_lem (λ t. t.late_uses ≡ s.late_uses) s.stop_requested (record s { cancels = suc s.cancels })
      (record s { stop_cb = s.stop_possible }) refl refl

suspend_from-Intact :
    (p : Phase) (s : OperationWait)
    → s.phase ≡ p
    → Intact p s
    → Intact (suspend_from p s).phase (suspend_from p s)
unfolding suspend_from
suspend_from-Intact registering s e h = h
suspend_from-Intact registered s e (h, r) =
    watch_stop-late_uses (use_frame s)
    ∙ (ap (λ o. if is_some o then suc s.late_uses else s.late_uses) r ∙ h)
suspend_from-Intact returned s e h = subst (λ p. Intact p s) (sym e) h

complete_done-phase :
    (d : Bool) (x : Option Error) (s : OperationWait) → (complete_done d x s).phase ≡ s.phase
unfolding complete_done
complete_done-phase true x s = refl
complete_done-phase false x s = refl

complete_done-Intact :
    (d : Bool) (x : Option Error) (p : Phase) (s : OperationWait)
    → Intact p s
    → Intact p (complete_done d x s)
unfolding complete_done
complete_done-Intact true x p s h = h
complete_done-Intact false x p s h = carry-Intact p s _ refl refl h

complete_from-Intact :
    (p : Phase) (x : Option Error) (s : OperationWait)
    → s.phase ≡ p
    → Intact p s
    → Intact (complete_from p x s).phase (complete_from p x s)
unfolding complete_from
complete_from-Intact registering x s e h = subst (λ p. Intact p s) (sym e) h
complete_from-Intact registered x s e h =
    subst (λ p. Intact p (complete_done s.done x s)) (sym (complete_done-phase s.done x s ∙ e))
      (complete_done-Intact s.done x registered s h)
complete_from-Intact returned x s e h =
    subst (λ p. Intact p (complete_done s.done x s)) (sym (complete_done-phase s.done x s ∙ e))
      (complete_done-Intact s.done x returned s h)

resume-Intact :
    (s : OperationWait) → s.phase ≡ returned → Intact s.phase s → Intact (resume s).phase (resume s)
unfolding resume
resume-Intact s e h = subst (λ p. Intact p (resume s)) (sym e) (subst (λ p. Intact p s) e h)

run-Intact :
    (es : List Event) (s : OperationWait)
    → Intact s.phase s
    → Serial es s
    → Intact (run es s).phase (run es s)
unfolding run step request_stop
run-Intact [] s h q = h
run-Intact (suspends ∷ es) s h q =
    run-Intact es (step suspends s) (suspend_from-Intact s.phase s refl h) q
run-Intact (requests_stop ∷ es) s h q =
    run-Intact es (step requests_stop s) (carry-Intact s.phase s (step requests_stop s) refl refl h)
      q
run-Intact (resumes ∷ es) s h (e, q) = run-Intact es (step resumes s) (resume-Intact s e h) q
run-Intact (completes x ∷ es) s h q =
    run-Intact es (step (completes x) s) (complete_from-Intact s.phase x s refl h) q

Intact-late_uses : (p : Phase) (s : OperationWait) → Intact p s → s.late_uses ≡ 0
Intact-late_uses returned s h = h
Intact-late_uses registered s (h, r) = h
Intact-late_uses registering s (h, r) = h

-- Whatever completes, is requested to stop or is resumed, and in whatever order: if the executor runs
-- posted tasks only after `await_suspend` has returned, `await_suspend` never uses the frame of a coroutine
-- that has already been resumed. This is what posting the resumption, instead of dispatching it, is for.
pub frame_intact :
    (possible requested : Bool) (es : List Event)
    → Serial es (start possible requested)
    → (run es (start possible requested)).late_uses ≡ 0
frame_intact possible requested es q =
    Intact-late_uses (run es (start possible requested)).phase (run es (start possible requested))
      (run-Intact es (start possible requested) (refl, refl) q)
