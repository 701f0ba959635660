-- ===== src/Io/ReadUntil/SingleByte.antt =====
-- The overload of `async_read_until` in include/iocoro/io/read_until.hpp for a delimiter of one byte.
use iocoro.Base.{
  ℕ, zero, suc, ◌+◌, ◌-◌, ◌≡◌, refl, ap, ◌∙◌, Option, none, some, List, [], ◌∷◌, ◌++◌, ltb,
  if◌then◌else◌, length, drop, arith, Bool-cases, inl, inr,
}
use iocoro.Io.{
  eof, message_size, invalid_argument, stream_error, Result, ok, unexpected, Answer, bytes, fails,
}
use iocoro.Io.Search.{find_byte_in_span, find_in_span-byte}
use iocoro.Io.ReadUntil.{found, read_turn, read_loop, read_after, async_read_until}

module _ {S : Type 0} where
  abbrev pub found_byte :
      (S → List ℕ → ℕ → Option Result) → S → List ℕ → ℕ → Option ℕ → Option Result
  found_byte next s filled search_from (some p) = some (ok (search_from + p + 1))
  found_byte next s filled search_from none = next s filled (length filled)

  abbrev pub byte_turn :
      (S → List ℕ → ℕ → Option Result) → S × Answer → List ℕ → ℕ → ℕ → Option Result
  byte_turn next (s, fails e) buf delim search_from = some (unexpected (stream_error e))
  byte_turn next (s, bytes []) buf delim search_from = some (unexpected eof)
  byte_turn next (s, bytes (c ∷ cs)) buf delim search_from =
      found_byte next s (buf ++ c ∷ cs) search_from
        (find_byte_in_span (drop search_from (buf ++ c ∷ cs)) delim)

  -- The loop; `none` where the fuel does not suffice.
  pub byte_loop : (S → ℕ → S × Answer) → ℕ → S → List ℕ → ℕ → ℕ → ℕ → Option Result
  byte_loop read_some zero s buf max_size delim search_from = none
  byte_loop read_some (suc fuel) s buf max_size delim search_from =
      if ltb (length buf) max_size
      then byte_turn (λ t filled from. byte_loop read_some fuel t filled max_size delim from)
          (read_some s (max_size - length buf)) buf delim search_from
      else some (unexpected message_size)

  abbrev pub byte_after : (S → ℕ → S × Answer) → ℕ → S → List ℕ → ℕ → ℕ → Option ℕ → Option Result
  byte_after read_some fuel s buf max_size delim (some p) = some (ok (p + 1))
  byte_after read_some fuel s buf max_size delim none =
      byte_loop read_some fuel s buf max_size delim (length buf)

  pub async_read_until_byte : (S → ℕ → S × Answer) → ℕ → S → List ℕ → ℕ → ℕ → Option Result
  async_read_until_byte read_some fuel s buf max_size delim =
      if ltb max_size (length buf)
      then some (unexpected invalid_argument)
      else byte_after read_some fuel s buf max_size delim
          (if ltb 0 (length buf) then find_byte_in_span buf delim else none)

  found-byte :
      (next single : S → List ℕ → ℕ → Option Result) (s : S) (filled : List ℕ) (d from : ℕ)
      (o : Option ℕ)
      → ((t : S) (more : List ℕ) (k : ℕ) → single t more k ≡ next t more k)
      → found_byte single s filled from o ≡ found next s filled (d ∷ []) from o
  found-byte next single s filled d from none h =
      h s filled (length filled) ∙ ap (λ k. next s filled k) (ground arith)
  found-byte next single s filled d from (some p) h = refl

  turn-byte :
      (next single : S → List ℕ → ℕ → Option Result) (a : S × Answer) (buf : List ℕ) (d from : ℕ)
      → ((t : S) (more : List ℕ) (k : ℕ) → single t more k ≡ next t more k)
      → byte_turn single a buf d from ≡ read_turn next a buf (d ∷ []) from
  turn-byte next single (s, fails e) buf d from h = refl
  turn-byte next single (s, bytes []) buf d from h = refl
  turn-byte next single (s, bytes (c ∷ cs)) buf d from h =
      rw (find_in_span-byte (drop from (buf ++ c ∷ cs)) d) (
        found-byte next single s (buf ++ c ∷ cs) d from
          (find_byte_in_span (drop from (buf ++ c ∷ cs)) d) h)

  loop-byte :
      (read_some : S → ℕ → S × Answer) (fuel : ℕ) (s : S) (buf : List ℕ) (max_size d from : ℕ)
      → byte_loop read_some fuel s buf max_size d from
        ≡ read_loop read_some fuel s buf max_size (d ∷ []) from
  unfolding byte_loop read_loop
  loop-byte read_some zero s buf max_size d from = refl
  loop-byte read_some (suc fuel) s buf max_size d from =
      elim (Bool-cases (ltb (length buf) max_size)) [
        | inl e ↦
            rw (e, byte_loop, read_loop)
              (turn-byte (λ t filled k. read_loop read_some fuel t filled max_size (d ∷ []) k)
                (λ t filled k. byte_loop read_some fuel t filled max_size d k)
                (read_some s (max_size - length buf)) buf d from
                (λ t more k. loop-byte read_some fuel t more max_size d k))
        | inr e ↦ rw (e, byte_loop, read_loop) refl
      ]

  after-byte :
      (read_some : S → ℕ → S × Answer) (fuel : ℕ) (s : S) (buf : List ℕ) (max_size d : ℕ)
      (o : Option ℕ)
      → byte_after read_some fuel s buf max_size d o
        ≡ read_after read_some fuel s buf max_size (d ∷ []) o
  after-byte read_some fuel s buf max_size d (some p) = refl
  after-byte read_some fuel s buf max_size d none =
      loop-byte read_some fuel s buf max_size d (length buf)
      ∙ ap (λ k. read_loop read_some fuel s buf max_size (d ∷ []) k) (ground arith)

  -- The overload for one byte gives what the general operation gives for the delimiter of that byte.
  pub async_read_until_byte_lem :
      (read_some : S → ℕ → S × Answer) (fuel : ℕ) (s : S) (buf : List ℕ) (max_size d : ℕ)
      → async_read_until_byte read_some fuel s buf max_size d
        ≡ async_read_until read_some fuel s buf max_size (d ∷ [])
  unfolding async_read_until_byte async_read_until
  async_read_until_byte_lem read_some fuel s buf max_size d =
      elim (Bool-cases (ltb max_size (length buf))) [
        | inl e ↦ rw (e) refl
        | inr e ↦ rw (e) (
            after-byte read_some fuel s buf max_size d
              (if ltb 0 (length buf) then find_byte_in_span buf d else none)
            ∙ ap (λ o. read_after read_some fuel s buf max_size (d ∷ []) o)
                (ground (arith, find_in_span-byte buf d)))
      ]
