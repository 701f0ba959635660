-- ===== src/Socket/Acceptor/Tests.antt =====
-- Runs of an accept.
use iocoro.Base.{◌≡◌, refl, none, some, [], ◌∷◌}
use iocoro.Socket.Utils.{enosys, eagain, enetdown, emsgsize, message_size, ok, fail}
use iocoro.Socket.Acceptor.{
  Acceptor, initial, open_acceptor, listen_from, cancels, Accept, accepts, accept_fails, Turn,
  async_accept,
}
use iocoro.Socket.Acceptor.Ownership.{Accounted, accepted_once}

abbrev acceptor : Acceptor
unfolding open_acceptor listen_from
acceptor = (listen_from none (some 0) (open_acceptor initial none)).0

abbrev gives : Accept → Turn
gives a = record {
  calls = [];
  answer = a;
  fallback = accepts 9;
  setup = some emsgsize;
  during = [];
  waiting = [];
  waited = none;
}

abbrev cancelled : Turn
cancelled = record (gives (accepts 7)) { during = cancels ∷ [] }

-- A transient error, a wait, and then a descriptor.
accepted :
    async_accept
      (gives (accept_fails enetdown) ∷ gives (accept_fails eagain) ∷ gives (accepts 7) ∷ [])
      acceptor
    ≡ some (record acceptor { accepted = 7 ∷ [] }, ok 7)
unfolding async_accept acceptor
accepted = refl

flags_fail :
    async_accept (gives (accept_fails enosys) ∷ []) acceptor
    ≡ some (record acceptor { accepted = 9 ∷ []; closed = 9 ∷ [] }, fail message_size)
unfolding async_accept acceptor
flags_fail = refl

accepted_once_example :
    Accounted 7 (async_accept (gives (accept_fails eagain) ∷ cancelled ∷ []) acceptor)
unfolding acceptor
accepted_once_example = accepted_once 7 (gives (accept_fails eagain) ∷ cancelled ∷ []) acceptor refl
