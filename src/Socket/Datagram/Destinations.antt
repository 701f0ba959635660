-- ===== src/Socket/Datagram/Destinations.antt =====
-- The comparison of destinations in async_send_to of include/iocoro/impl/socket/datagram_socket_impl.ipp.
use iocoro.Base.{ℕ, ◌≡◌, refl, List, [], ◌∷◌, ◌==◌, arith}
use iocoro.Socket.Datagram.{SockAddr, inet, inet6, other_family, same_bytes, same_destination}

eq_comm : (x y : ℕ) → (x == y) ≡ (y == x)
eq_comm x y = ground arith

same_bytes_comm : (xs ys : List ℕ) → same_bytes xs ys ≡ same_bytes ys xs
unfolding same_bytes
same_bytes_comm [] [] = refl
same_bytes_comm [] (y ∷ ys) = refl
same_bytes_comm (x ∷ xs) [] = refl
same_bytes_comm (x ∷ xs) (y ∷ ys) = rw (eq_comm x y, same_bytes_comm xs ys) refl

-- The comparison of two destinations, with their lengths, does not depend on their order.
pub same_destination_comm :
    (a : SockAddr) (m : ℕ) (b : SockAddr) (n : ℕ)
    → same_destination a m b n ≡ same_destination b n a m
unfolding same_destination
same_destination_comm (inet p a) m (inet q b) n = ground arith
same_destination_comm (inet6 p a i) m (inet6 q b j) n = ground arith
same_destination_comm (other_family f xs) m (other_family g ys) n =
    rw (same_bytes_comm xs ys) (ground arith)
same_destination_comm (inet p a) m (inet6 q b j) n = refl
same_destination_comm (inet p a) m (other_family g ys) n = refl
same_destination_comm (inet6 p a i) m (inet q b) n = refl
same_destination_comm (inet6 p a i) m (other_family g ys) n = refl
same_destination_comm (other_family f xs) m (inet q b) n = refl
same_destination_comm (other_family f xs) m (inet6 q b j) n = refl
