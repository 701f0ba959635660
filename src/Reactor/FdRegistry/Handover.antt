-- ===== src/Reactor/FdRegistry/Handover.antt =====
-- No operation is lost or duplicated by include/iocoro/detail/fd_registry.hpp: what the calls take
-- in is what they give back and what still waits.
use iocoro.Base.{
  ℕ, suc, ◌+◌, ◌≤◌, ◌<◌, ◌≡◌, ◌&&◌, ◌||◌, is_some, refl, Bool, true, not, Option, none, some, List,
  [], ◌∷◌, arith, length, get_or, set, leb, pos, negsuc, length-resize, total, total-set,
  total-resize, total-append, Bool-cases, inl, inr, leb→le,
}
use iocoro.Reactor.FdRegistry.{
  FdEventKind, read, write, Slot, FdOps, FdRegistry, empty_ops, holds, ops_at, ensure, push_op,
  take_slot, taken, drain_ops, register_impl, install, cancel, deregister, track, take_ready,
  drain_all, Call, register, cancels, deregisters, tracks, takes_ready, drains, step, run, accepted,
  handed_out, all_accepted, all_handed_out, initial,
}

-- A call with descriptor -(n + 1).
abbrev IsNegative : ℕ → Call → Type 0
IsNegative n (register fd op kind) = fd ≡ negsuc n
IsNegative n (cancels fd kind token) = fd ≡ negsuc n
IsNegative n (deregisters fd) = fd ≡ negsuc n
IsNegative n (tracks fd) = fd ≡ negsuc n
IsNegative n (takes_ready fd can_read can_write) = fd ≡ negsuc n
IsNegative n drains = ⊥

module _ (w : ℕ → ℕ) where
  abbrev load_op : Option ℕ → ℕ
  load_op none = 0
  load_op (some a) = w a

  -- The operations of one entry, each counted by `w`.
  abbrev load : FdOps → ℕ
  load o = load_op o.read_slot.op + load_op o.write_slot.op

  -- All operations that wait in the registry, each counted by `w`.
  abbrev pub waiting : FdRegistry → ℕ
  waiting r = total load r.operations

  total-push_op : (o : Option ℕ) (l : List ℕ) → total w (push_op o l) ≡ load_op o + total w l
  total-push_op none l = omega arith
  total-push_op (some a) l = refl

  total-drain_ops : (os : List FdOps) → total w (drain_ops os) ≡ total load os
  total-drain_ops [] = refl
  total-drain_ops (o ∷ os) = omega (
    arith,
    total-push_op o.read_slot.op (push_op o.write_slot.op (drain_ops os)),
    total-push_op o.write_slot.op (drain_ops os),
    total-drain_ops os,
  )

  -- `drain_all` gives back all that waits.
  pub total-drain_all : (r : FdRegistry) → total w (drain_all r).1.ops ≡ waiting r
  unfolding drain_all
  total-drain_all r = total-drain_ops r.operations

  waiting-ensure :
      (r : FdRegistry) (fd : ℕ)
      → (waiting (ensure r fd) ≡ waiting r) × (fd < length (ensure r fd).operations)
  waiting-ensure r fd = elim (Bool-cases (leb (length r.operations) fd)) [
    | inl short ↦
        let le : length r.operations ≤ suc fd = omega (arith, leb→le _ _ short) in
        rw short (
          total-resize load (suc fd) empty_ops r.operations refl le,
          omega (arith, length-resize (suc fd) empty_ops r.operations),
        )
    | inr long ↦ rw long (refl, ground arith)
  ]

  -- One entry is replaced.
  set-balance :
      (os : List FdOps) (fd : ℕ) (o : FdOps) (out given : ℕ)
      → fd < length os
      → out + load o ≡ load (get_or os fd empty_ops) + given
      → out + total load (set os fd o) ≡ total load os + given
  set-balance os fd o out given inside h = omega (arith, total-set load os fd o empty_ops inside)

  install-balance :
      (r : FdRegistry) (fd : ℕ) (op : Option ℕ) (kind : FdEventKind)
      → fd < length r.operations
      → load_op (install fd op kind r).1.replaced
          + load_op (install fd op kind r).1.ready_now
          + waiting (install fd op kind r).0
        ≡ waiting r + load_op op
  unfolding install
  install-balance r fd none read inside = set-balance r.operations fd _ _ _ inside (omega arith)
  install-balance r fd none write inside = set-balance r.operations fd _ _ _ inside (omega arith)
  install-balance r fd (some a) read inside = elim (Bool-cases (ops_at r fd).read_slot.ready) [
    | inl ready ↦ rw ready (set-balance r.operations fd _ _ _ inside (omega arith))
    | inr idle ↦ rw idle (set-balance r.operations fd _ _ _ inside (omega arith))
  ]
  install-balance r fd (some a) write inside = elim (Bool-cases (ops_at r fd).write_slot.ready) [
    | inl ready ↦ rw ready (set-balance r.operations fd _ _ _ inside (omega arith))
    | inr idle ↦ rw idle (set-balance r.operations fd _ _ _ inside (omega arith))
  ]

  register-balance :
      (r : FdRegistry) (fd : ℕ) (op : Option ℕ) (kind : FdEventKind)
      → load_op (register_impl (pos fd) op kind r).1.replaced
          + load_op (register_impl (pos fd) op kind r).1.ready_now
          + waiting (register_impl (pos fd) op kind r).0
        ≡ waiting r + load_op op
  unfolding register_impl
  register-balance r fd op kind =
      elim (Bool-cases (leb (length r.operations) fd && not (is_some op))) [
        | inl out ↦ rw out (ground arith)
        | inr inside ↦
            let (same, fits) = waiting-ensure r fd in
            rw inside (omega (arith, install-balance (ensure r fd) fd op kind fits))
      ]

  cancel-balance :
      (r : FdRegistry) (fd : ℕ) (kind : FdEventKind) (token : ℕ)
      → load_op (cancel (pos fd) kind token r).1.removed + waiting (cancel (pos fd) kind token r).0
        ≡ waiting r + 0
  unfolding cancel
  cancel-balance r fd read token = elim (Bool-cases (leb (length r.operations) fd)) [
    | inl out ↦ rw out (omega arith)
    | inr inside ↦ elim (Bool-cases (holds (ops_at r fd).read_slot token)) [
      | inr miss ↦ rw (inside, miss) (omega arith)
      | inl hit ↦ rw (inside, hit) (set-balance r.operations fd _ _ _ (ground arith) (omega arith))
    ]
  ]
  cancel-balance r fd write token = elim (Bool-cases (leb (length r.operations) fd)) [
    | inl out ↦ rw out (omega arith)
    | inr inside ↦ elim (Bool-cases (holds (ops_at r fd).write_slot token)) [
      | inr miss ↦ rw (inside, miss) (omega arith)
      | inl hit ↦ rw (inside, hit) (set-balance r.operations fd _ _ _ (ground arith) (omega arith))
    ]
  ]

  deregister-balance :
      (r : FdRegistry) (fd : ℕ)
      → load_op (deregister (pos fd) r).1.read_op
          + load_op (deregister (pos fd) r).1.write_op
          + waiting (deregister (pos fd) r).0
        ≡ waiting r + 0
  unfolding deregister
  deregister-balance r fd = elim (Bool-cases (leb (length r.operations) fd)) [
    | inl out ↦ rw out (omega arith)
    | inr inside ↦ rw inside (set-balance r.operations fd _ _ _ (ground arith) (omega arith))
  ]

  track-balance : (r : FdRegistry) (fd : ℕ) → waiting (track (pos fd) r) ≡ waiting r + 0
  unfolding track
  track-balance r fd =
      let (same, fits) = waiting-ensure r fd in
      let o = record (ops_at (ensure r fd) fd) { tracked = true } in
      omega (arith, set-balance (ensure r fd).operations fd o 0 0 fits (omega arith))

  take_slot-balance :
      (can : Bool) (s : Slot) → load_op (taken can s) + load_op (take_slot can s).op ≡ load_op s.op
  take_slot-balance can s = ground arith

  take_ready-balance :
      (r : FdRegistry) (fd : ℕ) (can_read can_write : Bool)
      → load_op (take_ready (pos fd) can_read can_write r).1.read_op
          + load_op (take_ready (pos fd) can_read can_write r).1.write_op
          + waiting (take_ready (pos fd) can_read can_write r).0
        ≡ waiting r + 0
  unfolding take_ready
  take_ready-balance r fd can_read can_write =
      elim (Bool-cases (leb (length r.operations) fd || not (ops_at r fd).tracked)) [
        | inl out ↦ rw out (omega arith)
        | inr inside ↦ rw inside (
            set-balance r.operations fd _ _ _ (ground arith) (
              omega (
                arith,
                take_slot-balance can_read (ops_at r fd).read_slot,
                take_slot-balance can_write (ops_at r fd).write_slot,
              )))
      ]

  total-push_ops : (a b : Option ℕ) → total w (push_op a (push_op b [])) ≡ load_op a + load_op b
  total-push_ops a b = omega (arith, total-push_op a (push_op b []), total-push_op b [])

  -- With a negative descriptor nothing happens.
  negative-balance :
      (r : FdRegistry) (n : ℕ) (c : Call)
      → IsNegative n c
      → total w (handed_out r c) + waiting (step r c) ≡ waiting r + total w (accepted c)
  unfolding handed_out step accepted register_impl cancel deregister track take_ready
  negative-balance r n (register fd op kind) e = rw e (omega arith)
  negative-balance r n (cancels fd kind token) e = rw e (omega arith)
  negative-balance r n (deregisters fd) e = rw e (omega arith)
  negative-balance r n (tracks fd) e = rw e (omega arith)
  negative-balance r n (takes_ready fd can_read can_write) e = rw e (omega arith)
  negative-balance r n drains e = absurd e

  -- One call, its operations counted by `w`.
  step-balance :
      (r : FdRegistry) (c : Call)
      → total w (handed_out r c) + waiting (step r c) ≡ waiting r + total w (accepted c)
  unfolding handed_out step accepted drain_all
  step-balance r (register (pos fd) op kind) =
      let res = (register_impl (pos fd) op kind r).1 in
      omega (
        arith,
        register-balance r fd op kind,
        total-push_ops res.replaced res.ready_now,
        total-push_op op [],
      )
  step-balance r (register (negsuc n) op kind) =
      negative-balance r n (register (negsuc n) op kind) refl
  step-balance r (cancels (pos fd) kind token) = omega (
    arith,
    cancel-balance r fd kind token,
    total-push_op (cancel (pos fd) kind token r).1.removed [],
  )
  step-balance r (cancels (negsuc n) kind token) =
      negative-balance r n (cancels (negsuc n) kind token) refl
  step-balance r (deregisters (pos fd)) =
      let res = (deregister (pos fd) r).1 in
      omega (arith, deregister-balance r fd, total-push_ops res.read_op res.write_op)
  step-balance r (deregisters (negsuc n)) = negative-balance r n (deregisters (negsuc n)) refl
  step-balance r (tracks (pos fd)) = omega (arith, track-balance r fd)
  step-balance r (tracks (negsuc n)) = negative-balance r n (tracks (negsuc n)) refl
  step-balance r (takes_ready (pos fd) can_read can_write) =
      let res = (take_ready (pos fd) can_read can_write r).1 in
      omega
        (arith, take_ready-balance r fd can_read can_write, total-push_ops res.read_op res.write_op)
  step-balance r (takes_ready (negsuc n) can_read can_write) =
      negative-balance r n (takes_ready (negsuc n) can_read can_write) refl
  step-balance r drains = omega (arith, total-drain_ops r.operations)

  run-balance :
      (r : FdRegistry) (cs : List Call)
      → total w (all_handed_out r cs) + waiting (run r cs) ≡ waiting r + total w (all_accepted cs)
  unfolding all_handed_out all_accepted run
  run-balance r [] = omega arith
  run-balance r (c ∷ cs) = omega (
    arith,
    step-balance r c,
    run-balance (step r c) cs,
    total-append w (handed_out r c) (all_handed_out (step r c) cs),
    total-append w (accepted c) (all_accepted cs),
  )

-- Over any history of calls from the start, each operation that a call took in was either given
-- back by a call or still waits, and exactly as often as it was taken in.
pub run-conserves :
    (w : ℕ → ℕ) (cs : List Call)
    → total w (all_handed_out initial cs) + waiting w (run initial cs) ≡ total w (all_accepted cs)
run-conserves w cs = omega (arith, run-balance w initial cs)
