-- ===== src/Reactor/FdRegistry/Tokens.antt =====
-- The tokens of include/iocoro/detail/fd_registry.hpp: a late cancellation cannot reach an
-- operation that was registered after its token was handed out.
use iocoro.Base.{
  ℕ, suc, ◌+◌, ◌^◌, ◌≤◌, ◌<◌, ◌≡◌, ◌&&◌, ◌||◌, is_some, refl, subst, Bool, true, not, Option, none,
  some, List, [], ◌∷◌, arith, ℕ_discrete, length, get_or, set, leb, ℤ, pos, negsuc, length-resize,
  get_or-resize, get_or-set_self, get_or-set_ne, Bool-cases, inl, inr, leb→le,
}
use iocoro.Reactor.FdRegistry.{
  FdEventKind, read, write, Slot, FdOps, FdRegistry, empty_ops, holds, ops_at, slot_for, take_slot,
  ensure, register_impl, install, cancel, deregister, track, take_ready, drain_all, Call, register,
  cancels, deregisters, tracks, takes_ready, drains, step, run,
}

-- Operation `a` waits in the slot under token `t`.
abbrev pub Waits : ℕ → ℕ → Slot → Type 0
Waits t a s = (s.op ≡ some a) × (s.token ≡ t)

module _ (t a : ℕ) where
  -- Whoever waits under `t` in the entries `os'` waits there in `os`.
  abbrev Earlier : List FdOps → List FdOps → Type 0
  Earlier os os' =
      (fd : ℕ) (kind : FdEventKind)
      → Waits t a (slot_for (get_or os' fd empty_ops) kind)
      → Waits t a (slot_for (get_or os fd empty_ops) kind)

  abbrev EntryEarlier : FdOps → FdOps → Type 0
  EntryEarlier o o' =
      (kind : FdEventKind) → Waits t a (slot_for o' kind) → Waits t a (slot_for o kind)

  -- One entry is replaced.
  set-Earlier :
      (os : List FdOps) (fd : ℕ) (o : FdOps)
      → fd < length os
      → EntryEarlier (get_or os fd empty_ops) o
      → Earlier os (set os fd o)
  set-Earlier os fd o inside entry i kind = elim (ℕ_discrete fd i) [
    | yes same ↦ rw (← same, get_or-set_self os fd o empty_ops inside) (entry kind)
    | no other ↦ rw (get_or-set_ne os fd i o empty_ops other) (λ h. h)
  ]

  ensure-Earlier :
      (r : FdRegistry) (fd : ℕ)
      → ((i : ℕ) → ops_at (ensure r fd) i ≡ ops_at r i) × (fd < length (ensure r fd).operations)
  ensure-Earlier r fd = elim (Bool-cases (leb (length r.operations) fd)) [
    | inl short ↦
        let le : length r.operations ≤ suc fd = omega (arith, leb→le _ _ short) in
        rw short (
          λ i. get_or-resize (suc fd) empty_ops r.operations i le,
          omega (arith, length-resize (suc fd) empty_ops r.operations),
        )
    | inr long ↦ rw long (λ i. refl, ground arith)
  ]

  install-Earlier :
      (r : FdRegistry) (fd : ℕ) (op : Option ℕ) (kind : FdEventKind)
      → fd < length r.operations
      → t < r.next_token
      → Earlier r.operations (install fd op kind r).0.operations
  unfolding install
  install-Earlier r fd none read inside old =
      set-Earlier r.operations fd _ inside (elim [ read ↦ λ h. cc | write ↦ λ h. h ])
  install-Earlier r fd none write inside old =
      set-Earlier r.operations fd _ inside (elim [ read ↦ λ h. h | write ↦ λ h. cc ])
  install-Earlier r fd (some b) read inside old = elim (Bool-cases (ops_at r fd).read_slot.ready) [
    | inl ready ↦
        rw ready (set-Earlier r.operations fd _ inside (elim [ read ↦ λ h. h | write ↦ λ h. h ]))
    | inr idle ↦ rw idle (
        set-Earlier r.operations fd _ inside
          (elim [ read ↦ λ h. absurd (omega arith) | write ↦ λ h. h ]))
  ]
  install-Earlier r fd (some b) write inside old =
      elim (Bool-cases (ops_at r fd).write_slot.ready) [
        | inl ready ↦
            rw ready
              (set-Earlier r.operations fd _ inside (elim [ read ↦ λ h. h | write ↦ λ h. h ]))
        | inr idle ↦ rw idle (
            set-Earlier r.operations fd _ inside
              (elim [ read ↦ λ h. h | write ↦ λ h. absurd (omega arith) ]))
      ]

  register-Earlier :
      (r : FdRegistry) (fd : ℤ) (op : Option ℕ) (kind : FdEventKind)
      → t < r.next_token
      → Earlier r.operations (register_impl fd op kind r).0.operations
  unfolding register_impl
  register-Earlier r (negsuc n) op kind old = λ i k h. h
  register-Earlier r (pos fd) op kind old =
      elim (Bool-cases (leb (length r.operations) fd && not (is_some op))) [
        | inl out ↦ rw out (λ i k h. h)
        | inr inside ↦
            let (same, fits) = ensure-Earlier r fd in
            rw inside (λ i k h.
              subst (λ o. Waits t a (slot_for o k)) (same i)
                (install-Earlier (ensure r fd) fd op kind fits (ground arith) i k h))
      ]

  cancel-Earlier :
      (r : FdRegistry) (fd : ℤ) (kind : FdEventKind) (token : ℕ)
      → Earlier r.operations (cancel fd kind token r).0.operations
  unfolding cancel
  cancel-Earlier r (negsuc n) kind token = λ i k h. h
  cancel-Earlier r (pos fd) read token = elim (Bool-cases (leb (length r.operations) fd)) [
    | inl out ↦ rw out (λ i k h. h)
    | inr inside ↦ elim (Bool-cases (holds (ops_at r fd).read_slot token)) [
      | inr miss ↦ rw (inside, miss) (λ i k h. h)
      | inl hit ↦
          rw (inside, hit)
            (set-Earlier r.operations fd _ (ground arith)
              (elim [ read ↦ λ h. cc | write ↦ λ h. h ]))
    ]
  ]
  cancel-Earlier r (pos fd) write token = elim (Bool-cases (leb (length r.operations) fd)) [
    | inl out ↦ rw out (λ i k h. h)
    | inr inside ↦ elim (Bool-cases (holds (ops_at r fd).write_slot token)) [
      | inr miss ↦ rw (inside, miss) (λ i k h. h)
      | inl hit ↦
          rw (inside, hit)
            (set-Earlier r.operations fd _ (ground arith)
              (elim [ read ↦ λ h. h | write ↦ λ h. cc ]))
    ]
  ]

  deregister-Earlier :
      (r : FdRegistry) (fd : ℤ) → Earlier r.operations (deregister fd r).0.operations
  unfolding deregister
  deregister-Earlier r (negsuc n) = λ i k h. h
  deregister-Earlier r (pos fd) = elim (Bool-cases (leb (length r.operations) fd)) [
    | inl out ↦ rw out (λ i k h. h)
    | inr inside ↦
        rw inside
          (set-Earlier r.operations fd _ (ground arith) (elim [ read ↦ λ h. cc | write ↦ λ h. cc ]))
  ]

  track-Earlier : (r : FdRegistry) (fd : ℤ) → Earlier r.operations (track fd r).operations
  unfolding track
  track-Earlier r (negsuc n) = λ i k h. h
  track-Earlier r (pos fd) =
      let (same, fits) = ensure-Earlier r fd in
      let o = record (ops_at (ensure r fd) fd) { tracked = true } in
      λ i k h.
        subst (λ o. Waits t a (slot_for o k)) (same i)
          (set-Earlier (ensure r fd).operations fd o fits (elim [ read ↦ λ h. h | write ↦ λ h. h ])
            i k h)

  take_slot-Earlier : (can : Bool) (s : Slot) → Waits t a (take_slot can s) → Waits t a s
  take_slot-Earlier can s h = ground arith

  take_ready-Earlier :
      (r : FdRegistry) (fd : ℤ) (can_read can_write : Bool)
      → Earlier r.operations (take_ready fd can_read can_write r).0.operations
  unfolding take_ready
  take_ready-Earlier r (negsuc n) can_read can_write = λ i k h. h
  take_ready-Earlier r (pos fd) can_read can_write =
      elim (Bool-cases (leb (length r.operations) fd || not (ops_at r fd).tracked)) [
        | inl out ↦ rw out (λ i k h. h)
        | inr inside ↦ rw inside (
            set-Earlier r.operations fd _ (ground arith) (elim [
              | read ↦ take_slot-Earlier can_read (ops_at r fd).read_slot
              | write ↦ take_slot-Earlier can_write (ops_at r fd).write_slot
            ]))
      ]

  drained-Earlier : (os : List FdOps) → Earlier os []
  drained-Earlier os i read h = cc
  drained-Earlier os i write h = cc

  -- After any call, whoever waits under an old token waited there before the call.
  step-Earlier :
      (r : FdRegistry) (c : Call) → t < r.next_token → Earlier r.operations (step r c).operations
  unfolding step drain_all
  step-Earlier r (register fd op kind) old = register-Earlier r fd op kind old
  step-Earlier r (cancels fd kind token) old = cancel-Earlier r fd kind token
  step-Earlier r (deregisters fd) old = deregister-Earlier r fd
  step-Earlier r (tracks fd) old = track-Earlier r fd
  step-Earlier r (takes_ready fd can_read can_write) old =
      take_ready-Earlier r fd can_read can_write
  step-Earlier r drains old = drained-Earlier r.operations

install-next_token :
    (r : FdRegistry) (fd : ℕ) (op : Option ℕ) (kind : FdEventKind)
    → r.next_token + 1 < 2 ^ 64
    → (r.next_token ≤ (install fd op kind r).0.next_token)
      × ((install fd op kind r).0.next_token ≤ r.next_token + 1)
unfolding install
install-next_token r fd op kind h = ground arith

-- A call hands out one token at most.
step-next_token :
    (r : FdRegistry) (c : Call)
    → r.next_token + 1 < 2 ^ 64
    → (r.next_token ≤ (step r c).next_token) × ((step r c).next_token ≤ r.next_token + 1)
unfolding step cancel deregister take_ready register_impl track drain_all
step-next_token r (register (pos fd) op kind) h =
    ground (arith, install-next_token (ensure r fd) fd op kind)
step-next_token r (cancels (pos fd) kind token) h = ground arith
step-next_token r (deregisters (pos fd)) h = ground arith
step-next_token r (tracks (pos fd)) h = ground arith
step-next_token r (takes_ready (pos fd) can_read can_write) h = ground arith
step-next_token r (register (negsuc n) op kind) h = omega arith
step-next_token r (cancels (negsuc n) kind token) h = omega arith
step-next_token r (deregisters (negsuc n)) h = omega arith
step-next_token r (tracks (negsuc n)) h = omega arith
step-next_token r (takes_ready (negsuc n) can_read can_write) h = omega arith
step-next_token r drains h = omega arith

run-Earlier :
    (t a : ℕ) (r : FdRegistry) (cs : List Call)
    → t < r.next_token
    → r.next_token + length cs < 2 ^ 64
    → Earlier t a r.operations (run r cs).operations
unfolding run
run-Earlier t a r [] old room i k h = h
run-Earlier t a r (c ∷ cs) old room i k h =
    let (up, down) = step-next_token r c (omega arith) in
    step-Earlier t a r c old i k (run-Earlier t a (step r c) cs (omega arith) (omega arith) i k h)

cancel-Waits :
    (t a fd : ℕ) (kind : FdEventKind) (r : FdRegistry)
    → (cancel (pos fd) kind t r).1.removed ≡ some a
    → Waits t a (slot_for (ops_at r fd) kind)
unfolding cancel
cancel-Waits t a fd kind r h = ground arith

-- A late cancellation is harmless: if a token `t` was handed out before the registry reached `r`,
-- then after any further calls (fewer than are needed to use up the 64-bit tokens) a cancellation
-- with `t` removes an operation only if that operation already waited under `t` in `r`, on the
-- same descriptor and kind. It never removes one that was registered later.
pub stale_cancel :
    (r : FdRegistry) (cs : List Call) (t a fd : ℕ) (kind : FdEventKind)
    → t < r.next_token
    → r.next_token + length cs < 2 ^ 64
    → (cancel (pos fd) kind t (run r cs)).1.removed ≡ some a
    → Waits t a (slot_for (ops_at r fd) kind)
stale_cancel r cs t a fd kind old room h =
    run-Earlier t a r cs old room fd kind (cancel-Waits t a fd kind (run r cs) h)
