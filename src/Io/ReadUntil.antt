-- ===== src/Io/ReadUntil.antt =====
-- `async_read_until` of include/iocoro/io/read_until.hpp. The buffer is the list of the bytes
-- written so far, from its start, with its size; the bytes behind them are never read.
pub mod SingleByte
pub mod Incremental
pub mod Occurrence
mod Tests
use iocoro.Base.{
  ℕ, zero, suc, ◌+◌, ◌-◌, Bool, true, false, Option, none, some, List, [], ◌∷◌, ◌++◌, ltb, leb,
  if◌then◌else◌, length, drop,
}
use iocoro.Io.{
  Error, eof, message_size, invalid_argument, stream_error, Result, ok, unexpected, Answer, bytes,
  fails,
}
use iocoro.Io.Search.{find_in_span, find_byte_in_span}

-- Where the next search begins.
abbrev pub overlap : ℕ → ℕ → ℕ
overlap current_size delim_size =
    if ltb (delim_size - 1) current_size then current_size - (delim_size - 1) else 0

module _ {S : Type 0} where
  -- One turn of the loop after its read; `next` is the loop's next turn.
  abbrev pub found :
      (S → List ℕ → ℕ → Option Result) → S → List ℕ → List ℕ → ℕ → Option ℕ → Option Result
  found next s filled delim search_from (some p) = some (ok (search_from + p + length delim))
  found next s filled delim search_from none =
      next s filled (overlap (length filled) (length delim))

  abbrev pub read_turn :
      (S → List ℕ → ℕ → Option Result) → S × Answer → List ℕ → List ℕ → ℕ → Option Result
  read_turn next (s, fails e) buf delim search_from = some (unexpected (stream_error e))
  read_turn next (s, bytes []) buf delim search_from = some (unexpected eof)
  read_turn next (s, bytes (c ∷ cs)) buf delim search_from =
      found next s (buf ++ c ∷ cs) delim search_from
        (find_in_span (drop search_from (buf ++ c ∷ cs)) delim)

  -- The loop; `none` where the fuel does not suffice.
  pub read_loop : (S → ℕ → S × Answer) → ℕ → S → List ℕ → ℕ → List ℕ → ℕ → Option Result
  read_loop read_some zero s buf max_size delim search_from = none
  read_loop read_some (suc fuel) s buf max_size delim search_from =
      if ltb (length buf) max_size
      then read_turn (λ t filled from. read_loop read_some fuel t filled max_size delim from)
          (read_some s (max_size - length buf)) buf delim search_from
      else some (unexpected message_size)

  -- Past the argument checks; `early` is the search of the initial data.
  abbrev pub read_after :
      (S → ℕ → S × Answer) → ℕ → S → List ℕ → ℕ → List ℕ → Option ℕ → Option Result
  read_after read_some fuel s buf max_size delim (some p) = some (ok (p + length delim))
  read_after read_some fuel s buf max_size delim none =
      read_loop read_some fuel s buf max_size delim (overlap (length buf) (length delim))

  pub async_read_until : (S → ℕ → S × Answer) → ℕ → S → List ℕ → ℕ → List ℕ → Option Result
  async_read_until read_some fuel s buf max_size [] = some (unexpected invalid_argument)
  async_read_until read_some fuel s buf max_size (d ∷ ds) =
      if ltb max_size (length buf)
      then some (unexpected invalid_argument)
      else read_after read_some fuel s buf max_size (d ∷ ds)
          (if leb (length (d ∷ ds)) (length buf) then find_in_span buf (d ∷ ds) else none)
