-- ===== src/Io/ReadUntil/Incremental.antt =====
-- The incremental search of `async_read_until` in include/iocoro/io/read_until.hpp against a plain
-- loop that searches all of the buffer after each read.
use iocoro.Base.{
  ℕ, zero, suc, ◌+◌, ◌-◌, ◌≤◌, ◌<◌, ◌≡◌, ◌⊎◌, refl, sym, Option, none, some, List, [], ◌∷◌, ◌++◌,
  arith, ltb, leb, if◌then◌else◌, length, drop, Bool-cases, inl, inr,
}
use iocoro.Io.{
  eof, message_size, invalid_argument, stream_error, Result, ok, unexpected, Answer, bytes, fails,
}
use iocoro.Io.Search.{
  find_in_span, find_in_span-search, search, search-skip, search-short, shift, shift_zero,
}
use iocoro.Io.ReadUntil.{overlap, found, read_turn, read_loop, read_after, async_read_until}

suffix-at :
    (k : ℕ) (buf cs : List ℕ) (d : ℕ) (ds : List ℕ)
    → search buf (d ∷ ds) ≡ none
    → (k ≡ 0) ⊎ (k + suc (length ds) ≤ suc (length buf))
    → search (buf ++ cs) (d ∷ ds) ≡ shift k (find_in_span (drop k (buf ++ cs)) (d ∷ ds))
suffix-at zero buf cs d ds e h =
    rw (find_in_span-search (buf ++ cs) d ds) (sym (shift_zero (search (buf ++ cs) (d ∷ ds))))
suffix-at (suc k) buf cs d ds e h =
    rw (find_in_span-search (drop (suc k) (buf ++ cs)) d ds)
      (search-skip (suc k) buf cs (d ∷ ds) (omega arith) e (omega (arith, h)))

overlap-cases : (n m : ℕ) → 0 < m → (overlap n m ≡ 0) ⊎ (overlap n m + m ≤ suc n)
overlap-cases n m h = ground arith

early-search :
    (buf : List ℕ) (d : ℕ) (ds : List ℕ)
    → search buf (d ∷ ds)
      ≡ (if leb (length (d ∷ ds)) (length buf) then find_in_span buf (d ∷ ds) else none)
early-search buf d ds = ground (arith, find_in_span-search buf d ds, search-short buf (d ∷ ds))

module _ {S : Type 0} where
  abbrev pub plain_found :
      (S → List ℕ → Option Result) → S → List ℕ → List ℕ → Option ℕ → Option Result
  plain_found next s filled delim (some p) = some (ok (p + length delim))
  plain_found next s filled delim none = next s filled

  abbrev pub plain_turn :
      (S → List ℕ → Option Result) → S × Answer → List ℕ → List ℕ → Option Result
  plain_turn next (s, fails e) buf delim = some (unexpected (stream_error e))
  plain_turn next (s, bytes []) buf delim = some (unexpected eof)
  plain_turn next (s, bytes (c ∷ cs)) buf delim =
      plain_found next s (buf ++ c ∷ cs) delim (search (buf ++ c ∷ cs) delim)

  unfoldable pub plain_loop : (S → ℕ → S × Answer) → ℕ → S → List ℕ → ℕ → List ℕ → Option Result
  plain_loop read_some zero s buf max_size delim = none
  plain_loop read_some (suc fuel) s buf max_size delim =
      if ltb (length buf) max_size
      then plain_turn (λ t filled. plain_loop read_some fuel t filled max_size delim)
          (read_some s (max_size - length buf)) buf delim
      else some (unexpected message_size)

  -- The specification: search the initial data, then after each read all of the data so far.
  unfoldable pub plain_read_until :
      (S → ℕ → S × Answer) → ℕ → S → List ℕ → ℕ → List ℕ → Option Result
  plain_read_until read_some fuel s buf max_size [] = some (unexpected invalid_argument)
  plain_read_until read_some fuel s buf max_size (d ∷ ds) =
      if ltb max_size (length buf)
      then some (unexpected invalid_argument)
      else plain_found (λ t filled. plain_loop read_some fuel t filled max_size (d ∷ ds)) s buf
          (d ∷ ds) (search buf (d ∷ ds))

  found-plain :
      (next : S → List ℕ → ℕ → Option Result) (plain : S → List ℕ → Option Result) (s : S)
      (filled : List ℕ) (k d : ℕ) (ds : List ℕ) (o : Option ℕ)
      → search filled (d ∷ ds) ≡ shift k o
      → ((t : S) (more : List ℕ)
          → search more (d ∷ ds) ≡ none
          → next t more (overlap (length more) (suc (length ds))) ≡ plain t more)
      → found next s filled (d ∷ ds) k o
        ≡ plain_found plain s filled (d ∷ ds) (search filled (d ∷ ds))
  found-plain next plain s filled k d ds none e h = rw (e) (h s filled e)
  found-plain next plain s filled k d ds (some p) e h = rw (e) refl

  turn-plain :
      (next : S → List ℕ → ℕ → Option Result) (plain : S → List ℕ → Option Result) (a : S × Answer)
      (buf : List ℕ) (d : ℕ) (ds : List ℕ)
      → search buf (d ∷ ds) ≡ none
      → ((t : S) (filled : List ℕ)
          → search filled (d ∷ ds) ≡ none
          → next t filled (overlap (length filled) (suc (length ds))) ≡ plain t filled)
      → read_turn next a buf (d ∷ ds) (overlap (length buf) (suc (length ds)))
        ≡ plain_turn plain a buf (d ∷ ds)
  turn-plain next plain (s, fails e) buf d ds n h = refl
  turn-plain next plain (s, bytes []) buf d ds n h = refl
  turn-plain next plain (s, bytes (c ∷ cs)) buf d ds n h =
      let k = overlap (length buf) (suc (length ds)) in
      found-plain next plain s (buf ++ c ∷ cs) k d ds
        (find_in_span (drop k (buf ++ c ∷ cs)) (d ∷ ds))
        (suffix-at k buf (c ∷ cs) d ds n
          (overlap-cases (length buf) (suc (length ds)) (omega arith)))
        h

  loop-plain :
      (read_some : S → ℕ → S × Answer) (fuel : ℕ) (s : S) (buf : List ℕ) (max_size : ℕ) (d : ℕ)
      (ds : List ℕ)
      → search buf (d ∷ ds) ≡ none
      → read_loop read_some fuel s buf max_size (d ∷ ds) (overlap (length buf) (suc (length ds)))
        ≡ plain_loop read_some fuel s buf max_size (d ∷ ds)
  unfolding read_loop plain_loop
  loop-plain read_some zero s buf max_size d ds n = refl
  loop-plain read_some (suc fuel) s buf max_size d ds n =
      elim (Bool-cases (ltb (length buf) max_size)) [
        | inl e ↦
            rw (e, read_loop, plain_loop)
              (turn-plain
                (λ t filled from. read_loop read_some fuel t filled max_size (d ∷ ds) from)
                (λ t filled. plain_loop read_some fuel t filled max_size (d ∷ ds))
                (read_some s (max_size - length buf)) buf d ds n
                (λ t filled f. loop-plain read_some fuel t filled max_size d ds f))
        | inr e ↦ rw (e, read_loop, plain_loop) refl
      ]

  after-plain :
      (read_some : S → ℕ → S × Answer) (fuel : ℕ) (s : S) (buf : List ℕ) (max_size : ℕ) (d : ℕ)
      (ds : List ℕ) (o : Option ℕ)
      → search buf (d ∷ ds) ≡ o
      → read_after read_some fuel s buf max_size (d ∷ ds) o
        ≡ plain_found
            (λ t filled. plain_loop read_some fuel t filled max_size (d ∷ ds))
            s
            buf
            (d ∷ ds)
            (search buf (d ∷ ds))
  after-plain read_some fuel s buf max_size d ds none e =
      rw (e) (loop-plain read_some fuel s buf max_size d ds e)
  after-plain read_some fuel s buf max_size d ds (some p) e = rw (e) refl

  -- For every stream, every buffer and every delimiter, `async_read_until`, which after each read
  -- searches only the suffix where a new occurrence can begin, gives the result of the plain loop
  -- that searches all of the data each time, errors included.
  pub async_read_until-plain :
      (read_some : S → ℕ → S × Answer) (fuel : ℕ) (s : S) (buf : List ℕ) (max_size : ℕ)
      (delim : List ℕ)
      → async_read_until read_some fuel s buf max_size delim
        ≡ plain_read_until read_some fuel s buf max_size delim
  unfolding async_read_until plain_read_until
  async_read_until-plain read_some fuel s buf max_size [] = refl
  async_read_until-plain read_some fuel s buf max_size (d ∷ ds) =
      elim (Bool-cases (ltb max_size (length buf))) [
        | inl e ↦ rw (e) refl
        | inr e ↦ rw (e) (
            after-plain read_some fuel s buf max_size d ds
              (if leb (length (d ∷ ds)) (length buf) then find_in_span buf (d ∷ ds) else none)
              (early-search buf d ds))
      ]
