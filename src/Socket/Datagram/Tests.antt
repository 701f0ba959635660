-- ===== src/Socket/Datagram/Tests.antt =====
-- Runs of the operations of a datagram socket.
use iocoro.Base.{ℕ, ◌≡◌, refl, none, some, List, [], ◌∷◌}
use iocoro.Socket.Utils.{message_size, invalid_argument, ok, fail}
use iocoro.Socket.Retry.{counts, Turn}
use iocoro.Socket.Retry.Interruptions.{Results}
use iocoro.Socket.Datagram.{
  inet, size_in, Native, DatagramSocket, initial, open_socket, connect_from, Call, async_send_to,
  async_receive_from,
}
use iocoro.Socket.Datagram.Transfers.{Fits, receive_bounded}

abbrev peer : Native
peer = record { addr = some (inet 53 127); len = size_in }

abbrev elsewhere : Native
elsewhere = record { addr = some (inet 54 127); len = size_in }

abbrev socket : DatagramSocket
unfolding open_socket connect_from
socket = (connect_from peer none (some 0) (open_socket initial none)).0

abbrev answers : ℕ → List (Turn Call)
answers n = record { calls = []; answer = counts n } ∷ []

too_long : async_receive_from 4 (answers 9) socket ≡ some (socket, fail message_size)
unfolding async_receive_from socket
too_long = refl

sent : async_send_to 4 peer (answers 4) socket ≡ some (socket, ok 4)
unfolding async_send_to socket
sent = refl

not_the_peer : async_send_to 4 elsewhere (answers 4) socket ≡ some (socket, fail invalid_argument)
unfolding async_send_to socket
not_the_peer = refl

receive_bounded_example : Results (Fits 4) (async_receive_from 4 (answers 9) socket)
receive_bounded_example = receive_bounded 4 (answers 9) socket
