-- ===== src/Reactor/Epoll/Generations.antt =====
-- The generations that tell a reused descriptor number's events apart, in
-- include/iocoro/impl/backends/epoll.ipp.
use iocoro.Base.{
  ℕ, ◌+◌, ◌^◌, ◌<◌, ◌≡◌, ◌≢◌, refl, sym, ap, ◌∙◌, none, some, List, [], ◌∷◌, arith, ◌==◌,
  if◌then◌else◌, pos, negsuc, int_limit,
}
use iocoro.Reactor.Epoll.{
  Backend, CtlResult, EpollEvent, pack_fd_gen, unpack_fd, unpack_gen, add_fd, remove_fd, accept,
  accept_fd, translate, watched, done, no_entry, failed, ctl, Call, adds, removes, apply, run,
  next_generation, watch,
}

-- The word keeps descriptor and generation apart: unpacking gives back every non-negative `int`
-- and every 32-bit generation that were packed.
pub unpack-pack :
    (fd gen : ℕ)
    → fd < int_limit
    → gen < 2 ^ 32
    → (unpack_fd (pack_fd_gen (pos fd) gen) ≡ pos fd)
      × (unpack_gen (pack_fd_gen (pos fd) gen) ≡ gen)
unfolding pack_fd_gen unpack_fd unpack_gen
unpack-pack fd gen f g = ground arith

-- By how much a call or a history raises the generation of `fd`.
abbrev pub raise : ℕ → Call → ℕ
raise fd (adds (pos k) first second) = if k == fd then 1 else 0
raise fd (adds (negsuc _) first second) = 0
raise fd (removes _) = 0

abbrev pub raises : ℕ → List Call → ℕ
raises fd [] = 0
raises fd (c ∷ cs) = raise fd c + raises fd cs

apply-capacity : (b : Backend) (c : Call) → (apply b c).fd_capacity ≡ b.fd_capacity
unfolding apply add_fd remove_fd
apply-capacity b (adds (pos k) first second) = ground arith
apply-capacity b (adds (negsuc _) first second) = refl
apply-capacity b (removes (pos k)) = ground arith
apply-capacity b (removes (negsuc _)) = refl

apply-generation :
    (b : Backend) (fd : ℕ) (c : Call)
    → fd < b.fd_capacity
    → b.fd_generations fd + raise fd c < 2 ^ 32
    → (apply b c).fd_generations fd ≡ b.fd_generations fd + raise fd c
unfolding apply add_fd remove_fd
apply-generation b fd (adds (pos k) first second) r h = ground arith
apply-generation b fd (adds (negsuc _) first second) r h = omega arith
apply-generation b fd (removes (pos k)) r h = ground arith
apply-generation b fd (removes (negsuc _)) r h = omega arith

run-generation :
    (b : Backend) (fd : ℕ) (cs : List Call)
    → fd < b.fd_capacity
    → b.fd_generations fd + raises fd cs < 2 ^ 32
    → (run b cs).fd_generations fd ≡ b.fd_generations fd + raises fd cs
unfolding run
run-generation b fd [] c h = omega arith
run-generation b fd (k ∷ cs) c h =
    let e = apply-generation b fd k c (omega arith) in
    let d =
      run-generation (apply b k) fd cs (omega (arith, apply-capacity b k)) (omega (arith, e)) in
    omega (arith, e, d)

accept-generation :
    (b : Backend) (fd gen : ℕ) (ev : EpollEvent)
    → b.fd_generations fd ≢ gen
    → accept_fd b (pos fd) gen ev ≡ none
accept-generation b fd gen ev n = ground (arith, n)

-- An event that the kernel reports with the word of an earlier `add_fd` is dropped: after any
-- further calls on the backend in which that descriptor number was added again at least once, and
-- fewer than 2^32 times over the backend's life, no such event reaches the reactor, whatever its mask.
pub stale_event :
    (b : Backend) (fd : ℕ) (cs : List Call) (ev : EpollEvent)
    → fd < int_limit
    → fd < b.fd_capacity
    → b.fd_generations fd + raises fd cs < 2 ^ 32
    → 0 < raises fd cs
    → ev.word ≡ pack_fd_gen (pos fd) (b.fd_generations fd)
    → accept (run b cs) ev ≡ none
unfolding accept
stale_event b fd cs ev i c h r w =
    let (e, d) = unpack-pack fd (b.fd_generations fd) i (omega arith) in
    rw (
      w,
      e,
      d,
      accept-generation (run b cs) fd (b.fd_generations fd) ev
          (λ k. omega (arith, run-generation b fd cs c h)),
    )

accept-removed :
    (b : Backend) (fd gen : ℕ) (ev : EpollEvent)
    → accept_fd (remove_fd (pos fd) b) (pos fd) gen ev ≡ none
unfolding remove_fd
accept-removed b fd gen ev = ground arith

-- Right after `remove_fd` no event of that descriptor is accepted, under whichever generation.
pub removed_event :
    (b : Backend) (fd gen : ℕ) (ev : EpollEvent)
    → fd < int_limit
    → gen < 2 ^ 32
    → ev.word ≡ pack_fd_gen (pos fd) gen
    → accept (remove_fd (pos fd) b) ev ≡ none
unfolding accept
removed_event b fd gen ev i g w =
    let (e, d) = unpack-pack fd gen i g in rw (w, e, d, accept-removed b fd gen ev)

accept-watched :
    (b : Backend) (fd : ℕ) (ev : EpollEvent)
    → fd < b.fd_capacity
    → accept_fd (watch b fd) (pos fd) (next_generation (b.fd_generations fd)) ev
      ≡ some (translate fd ev)
accept-watched b fd ev h = ground arith

ctl-word : (first second : CtlResult) (x y : ℕ) → ctl first second x ≡ watched y → x ≡ y
ctl-word done second x y e = cc
ctl-word no_entry done x y e = cc
ctl-word no_entry no_entry x y e = cc
ctl-word no_entry failed x y e = cc
ctl-word failed second x y e = cc

add_fd-inside :
    (b : Backend) (fd : ℕ) (first second : CtlResult)
    → fd < b.fd_capacity
    → add_fd (pos fd) first second b ≡ (
      watch b fd,
      ctl first second (pack_fd_gen (pos fd) (next_generation (b.fd_generations fd))),
    )
unfolding add_fd
add_fd-inside b fd first second h = ground arith

-- An event of a descriptor that was just added, with the word that `add_fd` gave to the kernel,
-- is accepted: an error or a hang-up makes it both readable and writable.
pub fresh_event :
    (b : Backend) (fd word : ℕ) (first second : CtlResult) (ev : EpollEvent)
    → fd < int_limit
    → fd < b.fd_capacity
    → (add_fd (pos fd) first second b).1 ≡ watched word
    → ev.word ≡ word
    → accept (add_fd (pos fd) first second b).0 ev ≡ some (translate fd ev)
unfolding accept
fresh_event b fd word first second ev i c h w =
    let q = add_fd-inside b fd first second c in
    let gen = next_generation (b.fd_generations fd) in
    let word_is =
      ctl-word first second (pack_fd_gen (pos fd) gen) word (sym (ap (λ r. r.1) q) ∙ h) in
    let (f, g) = unpack-pack fd gen i (ground arith) in
    rw (q, w, sym word_is, f, g, accept-watched b fd ev c)
