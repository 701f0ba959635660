-- ===== src/Socket/Stream/Connect/Tests.antt =====
-- Connects of a stream socket.
use iocoro.Base.{◌≡◌, refl, false, none, some, List, [], ◌∷◌}
use iocoro.Socket.Utils.{eintr, einprogress, ok}
use iocoro.Socket.Stream.{connected, StreamSocket, initial, apply, open_socket, cancels_read, opens}
use iocoro.Socket.Stream.Connect.{connect_fails, Attempt, so_error, Wait, async_connect}
use iocoro.Socket.Stream.Connect.Outcomes.{
  Outcome, Stays, connect_succeeds, closed_meanwhile, Stale, connect_races_close,
}

abbrev socket : StreamSocket
unfolding open_socket
socket = open_socket initial none

-- A signal interrupts the first call; the second one starts a connection.
abbrev attempts : List Attempt
attempts =
    record { calls = []; answer = connect_fails eintr; during = [] }
    ∷ record { calls = cancels_read ∷ []; answer = connect_fails einprogress; during = [] }
    ∷ []

abbrev wait : Wait
wait = record { calls = []; result = none; error = so_error none; more_calls = []; late = [] }

established :
    async_connect attempts wait socket
    ≡ some
        (record socket { conn = connected; read_op = record { epoch = 1; active = false } }, ok tt)
unfolding async_connect socket
established = refl

connect_succeeds_example : Outcome (Stays 0) (async_connect attempts wait socket)
unfolding socket
connect_succeeds_example =
    connect_succeeds attempts wait socket 0 refl refl refl (refl, (refl, tt)) refl

connect_races_close_example :
    Stale
      (λ t. async_connect attempts wait (apply opens t))
      (async_connect (closed_meanwhile ∷ []) wait socket)
unfolding socket
connect_races_close_example = connect_races_close attempts wait wait socket 0 refl refl refl
