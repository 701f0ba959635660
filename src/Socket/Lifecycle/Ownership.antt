-- ===== src/Socket/Lifecycle/Ownership.antt =====
-- No descriptor leaks or is closed twice by include/iocoro/impl/socket/socket_impl_base.ipp and
-- include/iocoro/detail/socket/fd_resource.hpp.
use iocoro.Base.{
  ℕ, ◌+◌, ◌≤◌, ◌≡◌, refl, ap, ◌∙◌, Option, none, some, List, [], ◌∷◌, arith, length, total,
  total-append, total-set_any, get_or-beyond, is_some, pos, negsuc, count, indicator, inc64, inc32,
  dec32, if◌then◌else◌, ◌==◌, Bool-cases, inl, inr,
}
use iocoro.Socket.Utils.{Errno}
use iocoro.Socket.Lifecycle.{
  FdResource, SocketBase, fresh, gone, at, put, note, set_closing, release_fd, forget_handles,
  cancel_all_handles, cancel_read_handle, cancel_write_handle, set_read_handle, set_write_handle,
  destroy, mark_closing, Setup, install, Created, created, create_fails, open_new, assign, close,
  release_at, release, make_operation_guard, reset_guard, cancel_on, cancel, cancel_read,
  cancel_write, Call, opens, assigns, installs, closes, releases, cancels, cancels_read,
  cancels_write, begins, ends, destroys, sets_read, sets_write, step, given, handed, returned, run,
  all_given, all_returned, initial,
}

module _ (w : ℕ → ℕ) where
  abbrev load : Option ℕ → ℕ
  load none = 0
  load (some fd) = w fd

  -- The descriptors that the resources own, each counted by `w`.
  abbrev pub owned : SocketBase → ℕ
  owned s = total (λ r. load r.fd) s.resources

  owned-put :
      (s : SocketBase) (i : ℕ) (r : FdResource) → r.fd ≡ (at s i).fd → owned (put s i r) ≡ owned s
  owned-put s i r e =
      let beyond : length s.resources ≤ i → load r.fd ≡ 0 =
        λ h. ap load (e ∙ ap (λ q. q.fd) (get_or-beyond s.resources i gone h)) in
      omega (arith, total-set_any (λ q. load q.fd) s.resources i r gone beyond, ap load e)

  owned-release_fd :
      (s : SocketBase) (i : ℕ) → owned (put s i (release_fd (at s i))) + load (at s i).fd ≡ owned s
  owned-release_fd s i =
      omega
        (arith, total-set_any (λ q. load q.fd) s.resources i (release_fd (at s i)) gone (λ h. refl))

  total-note : (o : Option ℕ) (l : List ℕ) → total w (note o l) ≡ load o + total w l
  total-note none l = omega arith
  total-note (some x) l = refl

  -- What the socket owns, and what it has closed.
  abbrev pub held : SocketBase → ℕ
  held s = owned s + total w s.closed

  cancel_all_handles-held : (i : ℕ) (s : SocketBase) → held (cancel_all_handles i s) ≡ held s
  unfolding cancel_all_handles
  cancel_all_handles-held i s = omega (arith, owned-put s i (forget_handles (at s i)) refl)

  mark_closing-held : (o : Option ℕ) (s : SocketBase) → held (mark_closing o s) ≡ held s
  unfolding mark_closing
  mark_closing-held none s = refl
  mark_closing-held (some i) s = omega (
    arith,
    cancel_all_handles-held i (put s i (set_closing (at s i))),
    owned-put s i (set_closing (at s i)) refl,
  )

  install-held :
      (fd : ℕ) (u : Setup) (e : Option Errno) (s : SocketBase)
      → held (install fd u e s).0 ≡ w fd + held s
  unfolding install
  install-held fd u (some e) s = omega arith
  install-held fd u none s = elim (Bool-cases u.added) [
    | inl e ↦ rw e (omega (arith, total-append (λ q. load q.fd) s.resources (fresh fd ∷ [])))
    | inr e ↦ rw e (omega arith)
  ]

  destroy-held : (i : ℕ) (s : SocketBase) → held (destroy i s) ≡ held s
  unfolding destroy
  destroy-held i s =
      let t = cancel_all_handles i s in
      omega
        (arith, cancel_all_handles-held i s, owned-release_fd t i, total-note (at t i).fd t.closed)

  release_at-held :
      (i : ℕ) (s : SocketBase)
      → held (release_at i s).0 + total w (handed (release_at i s).1) ≡ held s
  unfolding release_at
  release_at-held i s = elim (Bool-cases ((at s i).inflight == 0)) [
    | inl e ↦
        let t = mark_closing (some i) (record s { current = none }) in
        rw e (
          omega (
            arith,
            mark_closing-held (some i) (record s { current = none }),
            owned-release_fd t i,
            total-note (at t i).fd [],
          ))
    | inr e ↦ rw e (omega arith)
  ]

  set_read_handle-held :
      (i : ℕ) (h : Option ℕ) (e : ℕ) (s : SocketBase) → held (set_read_handle i h e s) ≡ held s
  unfolding set_read_handle
  set_read_handle-held i h e s =
      ground (arith, owned-put s i (record (at s i) { read_handle = h }) refl)

  set_write_handle-held :
      (i : ℕ) (h : Option ℕ) (e : ℕ) (s : SocketBase) → held (set_write_handle i h e s) ≡ held s
  unfolding set_write_handle
  set_write_handle-held i h e s =
      ground (arith, owned-put s i (record (at s i) { write_handle = h }) refl)

  make_operation_guard-held : (i : ℕ) (s : SocketBase) → held (make_operation_guard i s).0 ≡ held s
  unfolding make_operation_guard
  make_operation_guard-held i s =
      ground (arith, owned-put s i (record (at s i) { inflight = inc32 (at s i).inflight }) refl)

  cancel-held : (o : Option ℕ) (s : SocketBase) → held (cancel_on cancel_all_handles o s) ≡ held s
  cancel-held none s = refl
  cancel-held (some i) s = cancel_all_handles-held i s

  cancel_read-held :
      (o : Option ℕ) (s : SocketBase) → held (cancel_on cancel_read_handle o s) ≡ held s
  unfolding cancel_read_handle
  cancel_read-held none s = refl
  cancel_read-held (some i) s = omega (
    arith,
    owned-put s i
        (record (at s i) {
          read_cancel_epoch = inc64 (at s i).read_cancel_epoch;
          read_handle = none;
        })
        refl,
  )

  cancel_write-held :
      (o : Option ℕ) (s : SocketBase) → held (cancel_on cancel_write_handle o s) ≡ held s
  unfolding cancel_write_handle
  cancel_write-held none s = refl
  cancel_write-held (some i) s = omega (
    arith,
    owned-put s i
        (record (at s i) {
          write_cancel_epoch = inc64 (at s i).write_cancel_epoch;
          write_handle = none;
        })
        refl,
  )

  release-held :
      (o : Option ℕ) (s : SocketBase)
      → held (release o s).0 + total w (handed (release o s).1) ≡ held s
  unfolding release
  release-held none s = omega arith
  release-held (some i) s = release_at-held i s

  open_new-held :
      (c : Created) (u : Setup) (o : Option ℕ) (s : SocketBase)
      → s.current ≡ o
      → held (open_new c u o s).0 ≡ total w (given s (opens c u)) + held s
  unfolding open_new given
  open_new-held (create_fails x) u (some i) s e = omega arith
  open_new-held (created fd) u (some i) s e = rw e (omega arith)
  open_new-held (create_fails x) u none s e = omega arith
  open_new-held (created fd) u none s e = omega (
    arith,
    install-held fd u u.flags_fail s,
    ap (λ o. total w (if is_some o then [] else fd ∷ [])) e,
  )

  step-held :
      (s : SocketBase) (c : Call)
      → held (step s c) + total w (returned s c) ≡ total w (given s c) + held s
  unfolding step returned given assign close cancel cancel_read cancel_write reset_guard
  step-held s (opens c u) = omega (arith, open_new-held c u s.current s refl)
  step-held s (assigns (pos fd) u) = omega (
    arith,
    install-held fd u u.flags_fail (mark_closing s.current (record s { current = none })),
    mark_closing-held s.current (record s { current = none }),
  )
  step-held s (assigns (negsuc _) u) = omega arith
  step-held s (installs fd u) = omega (arith, install-held fd u u.flags_fail s)
  step-held s closes = omega (arith, mark_closing-held s.current (record s { current = none }))
  step-held s releases = omega (arith, release-held s.current s)
  step-held s cancels = omega (arith, cancel-held s.current s)
  step-held s cancels_read = omega (arith, cancel_read-held s.current s)
  step-held s cancels_write = omega (arith, cancel_write-held s.current s)
  step-held s (begins i) = omega (arith, make_operation_guard-held i s)
  step-held s (ends i) =
      omega (arith, owned-put s i (record (at s i) { inflight = dec32 (at s i).inflight }) refl)
  step-held s (destroys i) = omega (arith, destroy-held i s)
  step-held s (sets_read i h e) = omega (arith, set_read_handle-held i h e s)
  step-held s (sets_write i h e) = omega (arith, set_write_handle-held i h e s)

  run-held :
      (s : SocketBase) (cs : List Call)
      → held (run s cs) + total w (all_returned s cs) ≡ total w (all_given s cs) + held s
  unfolding run all_returned all_given
  run-held s [] = omega arith
  run-held s (c ∷ cs) = omega (
    arith,
    step-held s c,
    run-held (step s c) cs,
    total-append w (returned s c) (all_returned (step s c) cs),
    total-append w (given s c) (all_given (step s c) cs),
  )

-- No descriptor leaks and none is closed or given back twice. Over any history of calls on a new
-- socket, those that race with the destruction of old resources or with the end of an `open` or `assign`
-- included, each descriptor has been
-- given to the socket as often as it has been closed, has been given back by `release`, or is still
-- owned by a resource, taken together.
pub owned_once :
    (cs : List Call) (fd : ℕ)
    → let s = run initial cs in
      (owned (indicator fd) s + count fd s.closed) + count fd (all_returned initial cs)
      ≡ count fd (all_given initial cs)
owned_once cs fd = omega (arith, run-held (indicator fd) initial cs)
