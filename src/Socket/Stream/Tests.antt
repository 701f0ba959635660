-- ===== src/Socket/Stream/Tests.antt =====
-- Runs of the operations of a stream socket.
use iocoro.Base.{◌≡◌, refl, false, none, some, List, [], ◌∷◌, ◌++◌}
use iocoro.Socket.Utils.{eintr, ok}
use iocoro.Socket.Retry.{counts, fails, blocks, Turn}
use iocoro.Socket.Stream.{
  StreamSocket, initial, assign, Call, cancels_write, async_read_some, async_write_some,
}
use iocoro.Socket.Stream.Transfers.{transfer_eintr}

abbrev socket : StreamSocket
unfolding assign
socket = assign initial

-- The first call would block; during the wait another thread cancels writing.
abbrev blocked : List (Turn Call)
blocked = record { calls = []; answer = blocks (cancels_write ∷ []) none } ∷ []

abbrev reads_4 : List (Turn Call)
reads_4 = blocked ++ record { calls = []; answer = counts 4 } ∷ []

four_read :
    async_read_some 8 reads_4 socket
    ≡ some (record socket { write_op = record { epoch = 1; active = false } }, ok 4)
unfolding async_read_some socket
four_read = refl

transfer_eintr_example :
    (async_read_some 8
        (blocked
          ++ record { calls = []; answer = fails eintr }
            ∷ record { calls = []; answer = counts 4 }
            ∷ [])
        socket
      ≡ async_read_some 8 (blocked ++ record { calls = []; answer = counts 4 } ∷ []) socket)
    × (async_write_some 8
          (blocked
            ++ record { calls = []; answer = fails eintr }
              ∷ record { calls = []; answer = counts 4 }
              ∷ [])
          socket
        ≡ async_write_some 8 (blocked ++ record { calls = []; answer = counts 4 } ∷ []) socket)
transfer_eintr_example = transfer_eintr 8 blocked [] (counts 4) [] socket
