-- ===== src/Reactor/Epoll.antt =====
-- include/iocoro/impl/backends/epoll.ipp: which events of the kernel reach the reactor.
pub mod Generations
pub mod Waits
mod Tests
use iocoro.Base.{
  ℕ, zero, suc, ◌+◌, ◌-◌, ◌*◌, ◌/◌, ◌%◌, ◌^◌, Bool, true, false, ◌||◌, ◌&&◌, not, Option, none,
  some, List, [], ◌∷◌, ltb, leb, ◌==◌, if◌then◌else◌, ℤ, pos, negsuc, int_limit,
}
use iocoro.Reactor.WakeState.{Phase, consume_notification, finish_wait}

-- The conversions between `int` and `std::uint32_t`.
abbrev pub to_uint32 : ℤ → ℕ
to_uint32 (pos n) = n % 2 ^ 32
to_uint32 (negsuc n) = 2 ^ 32 - 1 - n % 2 ^ 32

abbrev pub to_int : ℕ → ℤ
to_int u = if ltb u int_limit then pos u else negsuc (2 ^ 32 - 1 - u)

-- The two halves of the word share no bit, so that `|` is the sum.
pub pack_fd_gen : ℤ → ℕ → ℕ
pack_fd_gen fd gen = (gen * 2 ^ 32) % 2 ^ 64 + to_uint32 fd

pub unpack_fd : ℕ → ℤ
unpack_fd word = to_int (word % 2 ^ 32)

pub unpack_gen : ℕ → ℕ
unpack_gen word = (word / 2 ^ 32) % 2 ^ 32

-- The arrays `fd_generations_` and `fd_active_` are read and written below `fd_capacity_` only.
pub record Backend : Type 0 where
  pub eventfd : ℕ
  pub fd_capacity : ℕ
  pub fd_generations : ℕ → ℕ
  pub fd_active : ℕ → Bool

-- What `epoll_ctl` with `EPOLL_CTL_MOD` and then `EPOLL_CTL_ADD` returns.
pub data CtlResult : Type 0 where
  done no_entry failed : CtlResult

-- The word that the kernel keeps for the descriptor, or the exception that is thrown.
pub data AddResult : Type 0 where
  watched : ℕ → AddResult
  out_of_range ctl_failed : AddResult

abbrev pub put {ℓ} : {A : Type ℓ} → (ℕ → A) → ℕ → A → ℕ → A
put f i v j = if j == i then v else f j

-- `fetch_add(1) + 1` on 32 bits, once more where it gives 0.
abbrev pub next_generation : ℕ → ℕ
next_generation g =
    if (g + 1) % 2 ^ 32 == 0 then ((g + 1) % 2 ^ 32 + 1) % 2 ^ 32 else (g + 1) % 2 ^ 32

abbrev pub watch : Backend → ℕ → Backend
watch b fd = record b {
  fd_generations = put b.fd_generations fd (next_generation (b.fd_generations fd));
  fd_active = put b.fd_active fd true;
}

abbrev pub ctl : CtlResult → CtlResult → ℕ → AddResult
ctl done second word = watched word
ctl no_entry done word = watched word
ctl no_entry no_entry word = ctl_failed
ctl no_entry failed word = ctl_failed
ctl failed second word = ctl_failed

pub add_fd : ℤ → CtlResult → CtlResult → Backend → Backend × AddResult
add_fd (negsuc _) first second b = (b, out_of_range)
add_fd (pos fd) first second b = if leb b.fd_capacity fd then (b, out_of_range) else (
  watch b fd,
  ctl first second (pack_fd_gen (pos fd) (next_generation (b.fd_generations fd))),
)

pub remove_fd : ℤ → Backend → Backend
remove_fd (negsuc _) b = b
remove_fd (pos fd) b =
    if ltb fd b.fd_capacity then record b { fd_active = put b.fd_active fd false } else b

-- An `epoll_event`: the word and the bits of the mask that the code reads.
pub record EpollEvent : Type 0 where
  pub word : ℕ
  pub epoll_err : Bool
  pub epoll_hup : Bool
  pub epoll_rdhup : Bool
  pub epoll_in : Bool
  pub epoll_out : Bool

-- `ec` is `connection_reset` exactly if `is_error` is set.
pub record BackendEvent : Type 0 where
  pub fd : ℕ
  pub can_read : Bool
  pub can_write : Bool
  pub is_error : Bool

abbrev pub translate : ℕ → EpollEvent → BackendEvent
translate fd ev =
    let has_hup = ev.epoll_hup || ev.epoll_rdhup in
    record {
      fd = fd;
      can_read = ev.epoll_err || has_hup || ev.epoll_in;
      can_write = ev.epoll_err || has_hup || ev.epoll_out;
      is_error = ev.epoll_err;
    }

abbrev pub is_wakeup : Backend → ℤ → Bool
is_wakeup b (pos fd) = fd == b.eventfd
is_wakeup b (negsuc _) = false

abbrev pub accept_fd : Backend → ℤ → ℕ → EpollEvent → Option BackendEvent
accept_fd b (negsuc _) gen ev = none
accept_fd b (pos fd) gen ev =
    if leb b.fd_capacity fd
    then none
    else if not (b.fd_active fd)
    then none
    else if not (b.fd_generations fd == gen)
    then none
    else some (translate fd ev)

-- One turn of the loop over the events, for an event that is not the eventfd's.
pub accept : Backend → EpollEvent → Option BackendEvent
accept b ev = accept_fd b (unpack_fd ev.word) (unpack_gen ev.word) ev

abbrev pub push : Option BackendEvent → List BackendEvent → List BackendEvent
push none es = es
push (some e) es = e ∷ es

-- What the loop pushes to `out`.
pub collect : Backend → List EpollEvent → List BackendEvent
collect b [] = []
collect b (ev ∷ evs) =
    let rest = collect b evs in
    if is_wakeup b (unpack_fd ev.word) then rest else push (accept b ev) rest

-- What the loop does to the phase.
pub consume : Backend → List EpollEvent → Phase → Phase
consume b [] p = p
consume b (ev ∷ evs) p =
    if is_wakeup b (unpack_fd ev.word)
    then consume b evs (consume_notification p)
    else consume b evs p

-- What `epoll_wait` returns.
pub data EpollReturn : Type 0 where
  interrupted wait_failed : EpollReturn
  events : List EpollEvent → EpollReturn

-- `wait`: the phase and `out` afterwards, and whether it throws.
unfoldable pub wait :
    Backend → EpollReturn → Phase → List BackendEvent → Phase × List BackendEvent × Bool
wait b interrupted p out = (finish_wait p, out, false)
wait b wait_failed p out = (finish_wait p, out, true)
wait b (events evs) p out = (finish_wait (consume b evs p), collect b evs, false)

-- Calls of other components on the backend.
pub data Call : Type 0 where
  adds : ℤ → CtlResult → CtlResult → Call
  removes : ℤ → Call

pub apply : Backend → Call → Backend
apply b (adds fd first second) = (add_fd fd first second b).0
apply b (removes fd) = remove_fd fd b

pub run : Backend → List Call → Backend
run b [] = b
run b (c ∷ cs) = run (apply b c) cs
