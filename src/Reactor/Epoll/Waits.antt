-- ===== src/Reactor/Epoll/Waits.antt =====
-- What `wait` in include/iocoro/impl/backends/epoll.ipp hands to the reactor.
use iocoro.Base.{
  ℕ, ◌<◌, ◌≡◌, ◌^◌, int_limit, refl, true, Option, none, some, List, [], ◌∷◌, arith, pos, ℤ, negsuc,
  Bool-cases, inl, inr,
}
use iocoro.Reactor.Epoll.Generations.{removed_event}
use iocoro.Reactor.WakeState.{Phase}
use iocoro.Reactor.Epoll.{
  Backend, EpollEvent, BackendEvent, events, unpack_fd, unpack_gen, accept_fd, accept, is_wakeup,
  push, collect, wait, translate, pack_fd_gen, remove_fd,
}

-- The event is of a watched descriptor inside the arrays, and an error sets both directions.
pub record Live (b : Backend) (e : BackendEvent) : Type 0 where
  pub inside : e.fd < b.fd_capacity
  pub watched : b.fd_active e.fd ≡ true
  pub read_on_error : e.is_error ≡ true → e.can_read ≡ true
  pub write_on_error : e.is_error ≡ true → e.can_write ≡ true

abbrev pub AllLive : Backend → List BackendEvent → Type 0
AllLive b [] = Unit
AllLive b (e ∷ es) = Live b e × AllLive b es

abbrev LiveIf : Backend → Option BackendEvent → Type 0
LiveIf b none = Unit
LiveIf b (some e) = Live b e

translate-Live :
    (b : Backend) (fd : ℕ) (ev : EpollEvent)
    → fd < b.fd_capacity
    → b.fd_active fd ≡ true
    → Live b (translate fd ev)
translate-Live b fd ev c a = record {
  inside = c;
  watched = a;
  read_on_error = λ e. rw e;
  write_on_error = λ e. rw e;
}

accept_fd-Live :
    (b : Backend) (fd : ℤ) (gen : ℕ) (ev : EpollEvent) → LiveIf b (accept_fd b fd gen ev)
accept_fd-Live b (negsuc _) gen ev = tt
accept_fd-Live b (pos fd) gen ev = ground (arith, translate-Live b fd ev)

push-AllLive :
    (b : Backend) (o : Option BackendEvent) (es : List BackendEvent)
    → LiveIf b o
    → AllLive b es
    → AllLive b (push o es)
push-AllLive b none es h v = v
push-AllLive b (some e) es h v = (h, v)

collect-AllLive : (b : Backend) (evs : List EpollEvent) → AllLive b (collect b evs)
unfolding collect accept
collect-AllLive b [] = tt
collect-AllLive b (ev ∷ evs) =
    let rest = collect-AllLive b evs in
    elim (Bool-cases (is_wakeup b (unpack_fd ev.word))) [
      | inl e ↦ rw (e) rest
      | inr e ↦
          rw (e)
            (push-AllLive b _ _ (accept_fd-Live b (unpack_fd ev.word) (unpack_gen ev.word) ev) rest)
    ]

-- However the kernel answers, each event that a wait it did not interrupt hands over is of a watched
-- descriptor inside the arrays, and one with an error is readable and writable.
pub wait-AllLive :
    (b : Backend) (evs : List EpollEvent) (p : Phase) (out : List BackendEvent)
    → AllLive b (wait b (events evs) p out).1
unfolding wait
wait-AllLive b evs p out = collect-AllLive b evs

-- Each word that the kernel reports is of the descriptor `fd`, under some generation.
abbrev pub OnlyOf : ℕ → List EpollEvent → Type 0
OnlyOf fd [] = Unit
OnlyOf fd (ev ∷ evs) =
    (gen : ℕ) × (gen < 2 ^ 32) × (ev.word ≡ pack_fd_gen (pos fd) gen) × OnlyOf fd evs

pub collect-removed :
    (b : Backend) (fd : ℕ) (evs : List EpollEvent)
    → fd < int_limit
    → OnlyOf fd evs
    → collect (remove_fd (pos fd) b) evs ≡ []
unfolding collect
collect-removed b fd [] i o = refl
collect-removed b fd (ev ∷ evs) i (gen, g, w, o) =
    let e = removed_event b fd gen ev i g w in
    let rest = collect-removed b fd evs i o in
    elim (Bool-cases (is_wakeup (remove_fd (pos fd) b) (unpack_fd ev.word))) [
      | inl t ↦ rw (t, collect) rest
      | inr t ↦ rw (t, e, collect) rest
    ]
