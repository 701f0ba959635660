-- ===== src/Reactor/FdRegistry/Invariant.antt =====
-- What every call on include/iocoro/detail/fd_registry.hpp keeps: the count of waiting operations,
-- and the state of each slot.
use iocoro.Base.{
  ℕ, suc, ◌+◌, ◌*◌, ◌^◌, ◌≤◌, ◌<◌, ◌≡◌, ◌&&◌, ◌==◌, is_some, if◌then◌else◌, refl, sym, Bool, false,
  not, Option, none, some, List, [], ◌∷◌, arith, subst, ℕ_discrete, length, get_or, set, resize,
  leb, weight, int_limit, ℤ, pos, negsuc, length-set, length-resize, get_or-set_self, get_or-set_ne,
  get_or-resize, total, total-set, total-resize, Bool-cases, inl, inr, leb→le,
}
use iocoro.Reactor.FdRegistry.{
  FdEventKind, read, write, FdOps, FdRegistry, empty_ops, holds, ops_at, ensure, register_impl,
  install, cancel, deregister, track, take_ready, drain_all, Call, register, cancels, deregisters,
  tracks, takes_ready, drains, step,
}

-- The operations that wait in one entry.
abbrev pub ops_in : FdOps → ℕ
ops_in o = weight o.read_slot.op + weight o.write_slot.op

-- A slot in use has a token handed out before, and no readiness is latched beside a waiter.
abbrev pub SlotOk : ℕ → Option ℕ → ℕ → Bool → Type 0
SlotOk next none token ready = token ≡ 0
SlotOk next (some o) token ready = (0 < token) × (token < next) × (ready ≡ false)

abbrev pub EntryOk : ℕ → FdOps → Type 0
EntryOk next o =
    SlotOk next o.read_slot.op o.read_slot.token o.read_slot.ready
    × SlotOk next o.write_slot.op o.write_slot.token o.write_slot.ready

pub record Inv (r : FdRegistry) : Type 0 where
  pub counted : r.active_count ≡ total ops_in r.operations
  pub small : length r.operations ≤ int_limit
  pub issued : 0 < r.next_token
  pub slots : (fd : ℕ) → EntryOk r.next_token (ops_at r fd)

total-ops_in-le : (os : List FdOps) → total ops_in os ≤ 2 * length os
total-ops_in-le [] = omega arith
total-ops_in-le (o ∷ os) = ground (arith, total-ops_in-le os)

EntryOk-mono : (m n : ℕ) (o : FdOps) → m ≤ n → EntryOk m o → EntryOk n o
EntryOk-mono m n o h e = ground arith

-- One entry is replaced, and the count follows it.
set-Inv :
    {r : FdRegistry} (fd : ℕ) (o : FdOps) (next active : ℕ)
    → Inv r
    → fd < length r.operations
    → r.next_token ≤ next
    → EntryOk next o
    → active + ops_in (ops_at r fd) ≡ r.active_count + ops_in o
    → Inv (record { operations = set r.operations fd o; next_token = next; active_count = active })
set-Inv {r} fd o next active v inside grows entry moved = record {
  counted = omega (arith, v.counted, total-set ops_in r.operations fd o empty_ops inside);
  small = omega (arith, v.small, length-set r.operations fd o);
  issued = omega (arith, v.issued);
  slots = slots_at;
}
  where
    slots_at : (i : ℕ) → EntryOk next (get_or (set r.operations fd o) i empty_ops)
    slots_at i = elim (ℕ_discrete fd i) [
      | yes same ↦ rw (← same, get_or-set_self r.operations fd o empty_ops inside) entry
      | no other ↦
          rw (get_or-set_ne r.operations fd i o empty_ops other)
            (EntryOk-mono r.next_token next (ops_at r i) grows (v.slots i))
    ]

-- Where there is no entry, the vector grows and nothing else changes.
ensure-Inv :
    (r : FdRegistry) (fd : ℕ)
    → Inv r
    → fd < int_limit
    → Inv (ensure r fd)
      × (fd < length (ensure r fd).operations)
      × ((i : ℕ) → ops_at (ensure r fd) i ≡ ops_at r i)
ensure-Inv r fd v small = elim (Bool-cases (leb (length r.operations) fd)) [
  | inl short ↦
      let le : length r.operations ≤ suc fd = omega (arith, leb→le _ _ short) in
      let len : length (resize (suc fd) empty_ops r.operations) ≡ suc fd =
        length-resize (suc fd) empty_ops r.operations in
      let at = λ (i : ℕ). get_or-resize (suc fd) empty_ops r.operations i le in
      rw short (
        record {
          counted =
              omega (arith, v.counted, total-resize ops_in (suc fd) empty_ops r.operations refl le);
          small = omega (arith, len);
          issued = v.issued;
          slots = λ i. subst (EntryOk r.next_token) (sym (at i)) (v.slots i);
        },
        omega (arith, len),
        at,
      )
  | inr long ↦ rw long (v, ground arith, λ i. refl)
]

drained_count :
    (os : List FdOps) (n : ℕ) → n ≡ total ops_in os → (if length os == 0 then n else 0) ≡ 0
drained_count [] n h = h
drained_count (o ∷ os) n h = ground arith

module _ (r : FdRegistry) (v : Inv r) where
  room : r.active_count + 2 < 2 ^ 64
  room = omega (arith, v.counted, v.small, total-ops_in-le r.operations)

  present : (fd : ℕ) → fd < length r.operations → ops_in (ops_at r fd) ≤ r.active_count
  present fd inside =
      omega (arith, v.counted, total-set ops_in r.operations fd empty_ops empty_ops inside)

  install-Inv :
      (fd : ℕ) (op : Option ℕ) (kind : FdEventKind)
      → fd < length r.operations
      → r.next_token + 1 < 2 ^ 64
      → Inv (install fd op kind r).0
  unfolding install
  install-Inv fd none read inside fresh =
      set-Inv fd _ _ _ v inside (omega arith) (ground (arith, v.slots fd))
        (ground (arith, room, present fd inside))
  install-Inv fd none write inside fresh =
      set-Inv fd _ _ _ v inside (omega arith) (ground (arith, v.slots fd))
        (ground (arith, room, present fd inside))
  install-Inv fd (some a) read inside fresh = elim (Bool-cases (ops_at r fd).read_slot.ready) [
    | inl ready ↦ rw ready (
        set-Inv fd _ _ _ v inside (omega arith) (ground (arith, v.slots fd))
          (ground (arith, room, present fd inside)))
    | inr idle ↦ rw idle (
        set-Inv fd _ _ _ v inside (omega arith) (ground (arith, v.slots fd, v.issued))
          (ground (arith, room, present fd inside)))
  ]
  install-Inv fd (some a) write inside fresh = elim (Bool-cases (ops_at r fd).write_slot.ready) [
    | inl ready ↦ rw ready (
        set-Inv fd _ _ _ v inside (omega arith) (ground (arith, v.slots fd))
          (ground (arith, room, present fd inside)))
    | inr idle ↦ rw idle (
        set-Inv fd _ _ _ v inside (omega arith) (ground (arith, v.slots fd, v.issued))
          (ground (arith, room, present fd inside)))
  ]

  cancel-Inv : (fd : ℕ) (kind : FdEventKind) (token : ℕ) → Inv (cancel (pos fd) kind token r).0
  unfolding cancel
  cancel-Inv fd read token = elim (Bool-cases (leb (length r.operations) fd)) [
    | inl out ↦ rw out v
    | inr inside ↦ elim (Bool-cases (holds (ops_at r fd).read_slot token)) [
      | inr miss ↦ rw (inside, miss) v
      | inl hit ↦
          rw (inside, hit)
            (set-Inv fd _ _ _ v (ground arith) (omega arith) (ground (arith, v.slots fd))
              (ground (arith, room, present fd (ground arith))))
    ]
  ]
  cancel-Inv fd write token = elim (Bool-cases (leb (length r.operations) fd)) [
    | inl out ↦ rw out v
    | inr inside ↦ elim (Bool-cases (holds (ops_at r fd).write_slot token)) [
      | inr miss ↦ rw (inside, miss) v
      | inl hit ↦
          rw (inside, hit)
            (set-Inv fd _ _ _ v (ground arith) (omega arith) (ground (arith, v.slots fd))
              (ground (arith, room, present fd (ground arith))))
    ]
  ]

  deregister-Inv : (fd : ℕ) → Inv (deregister (pos fd) r).0
  unfolding deregister
  deregister-Inv fd = elim (Bool-cases (leb (length r.operations) fd)) [
    | inl out ↦ rw out v
    | inr inside ↦ rw inside (
        set-Inv fd _ _ _ v (ground arith) (omega arith) (ground arith)
          (ground (arith, room, present fd (ground arith))))
  ]

  take_ready-Inv :
      (fd : ℕ) (can_read can_write : Bool) → Inv (take_ready (pos fd) can_read can_write r).0
  unfolding take_ready
  take_ready-Inv fd can_read can_write = elim (Bool-cases (leb (length r.operations) fd)) [
    | inl out ↦ rw out v
    | inr inside ↦ elim (Bool-cases (ops_at r fd).tracked) [
      | inr unknown ↦ rw (inside, unknown) v
      | inl known ↦
          rw (inside, known)
            (set-Inv fd _ _ _ v (ground arith) (omega arith) (ground (arith, v.slots fd))
              (ground (arith, room, present fd (ground arith))))
    ]
  ]

  drain_all-Inv : Inv (drain_all r).0
  unfolding drain_all
  drain_all-Inv = record {
    counted = drained_count r.operations r.active_count v.counted;
    small = omega arith;
    issued = v.issued;
    slots = λ _. (refl, refl);
  }

-- The descriptor of a call, and the range in which it is an `int`.
abbrev pub IsFd : ℤ → Type 0
IsFd (pos fd) = fd < int_limit
IsFd (negsuc _) = Unit

abbrev pub IsCall : Call → Type 0
IsCall (register fd op kind) = IsFd fd
IsCall (cancels fd kind token) = IsFd fd
IsCall (deregisters fd) = IsFd fd
IsCall (tracks fd) = IsFd fd
IsCall (takes_ready fd can_read can_write) = IsFd fd
IsCall drains = Unit

register-Inv :
    (r : FdRegistry) (fd : ℤ) (op : Option ℕ) (kind : FdEventKind)
    → Inv r
    → IsFd fd
    → r.next_token + 1 < 2 ^ 64
    → Inv (register_impl fd op kind r).0
unfolding register_impl
register-Inv r (negsuc _) op kind v h fresh = v
register-Inv r (pos fd) op kind v h fresh =
    elim (Bool-cases (leb (length r.operations) fd && not (is_some op))) [
      | inl out ↦ rw out v
      | inr inside ↦
          let (v', fits, at) = ensure-Inv r fd v h in
          rw inside (install-Inv (ensure r fd) v' fd op kind fits (ground arith))
    ]

track-Inv : (r : FdRegistry) (fd : ℤ) → Inv r → IsFd fd → Inv (track fd r)
unfolding track
track-Inv r (negsuc _) v h = v
track-Inv r (pos fd) v h =
    let (v', fits, at) = ensure-Inv r fd v h in
    set-Inv fd _ _ _ v' fits (omega arith) (v'.slots fd) (omega arith)

-- Every method keeps the invariant: `active_count_` is the number of operations that wait, and
-- each slot in use has a token below the next one and no latched readiness. The descriptor is an
-- `int`, and fewer than 2^64 - 1 tokens have been handed out.
pub fd_step-Inv :
    (r : FdRegistry) (c : Call) → Inv r → IsCall c → r.next_token + 1 < 2 ^ 64 → Inv (step r c)
unfolding step cancel deregister take_ready
fd_step-Inv r (register fd op kind) v h fresh = register-Inv r fd op kind v h fresh
fd_step-Inv r (cancels (pos fd) kind token) v h fresh = cancel-Inv r v fd kind token
fd_step-Inv r (cancels (negsuc _) kind token) v h fresh = v
fd_step-Inv r (deregisters (pos fd)) v h fresh = deregister-Inv r v fd
fd_step-Inv r (deregisters (negsuc _)) v h fresh = v
fd_step-Inv r (tracks fd) v h fresh = track-Inv r fd v h
fd_step-Inv r (takes_ready (pos fd) can_read can_write) v h fresh =
    take_ready-Inv r v fd can_read can_write
fd_step-Inv r (takes_ready (negsuc _) can_read can_write) v h fresh = v
fd_step-Inv r drains v h fresh = drain_all-Inv r v
