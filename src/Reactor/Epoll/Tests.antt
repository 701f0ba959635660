-- ===== src/Reactor/Epoll/Tests.antt =====
-- The theorems on include/iocoro/impl/backends/epoll.ipp at concrete backends.
use iocoro.Base.{◌≡◌, refl, true, false, none, [], ◌∷◌, pos, arith}
use iocoro.Reactor.Epoll.{
  Backend, done, no_entry, EpollEvent, pack_fd_gen, accept, adds, removes, run,
}
use iocoro.Reactor.Epoll.Generations.{stale_event}

-- Descriptor 5 has been added once.
abbrev backend : Backend
backend = record { eventfd = 3; fd_capacity = 64; fd_generations = λ i. 1; fd_active = λ i. true }

abbrev event : EpollEvent
event = record {
  word = pack_fd_gen (pos 5) 1;
  epoll_err = true;
  epoll_hup = false;
  epoll_rdhup = false;
  epoll_in = false;
  epoll_out = false;
}

stale_event_example :
    accept (run backend (removes (pos 5) ∷ adds (pos 5) no_entry done ∷ [])) event ≡ none
stale_event_example =
    stale_event backend 5 (removes (pos 5) ∷ adds (pos 5) no_entry done ∷ []) event (omega arith)
      (omega arith) (omega arith) (omega arith) refl
