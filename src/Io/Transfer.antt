-- ===== src/Io/Transfer.antt =====
-- `async_read` of include/iocoro/io/read.hpp and `async_write` of include/iocoro/io/write.hpp. The
-- results carry the state of the stream and, for a read, the bytes written to the buffer.
pub mod Reads
pub mod Writes
mod Tests
use iocoro.Base.{
  ℕ, zero, suc, ◌-◌, ◌==◌, Option, none, some, List, [], ◌∷◌, ◌++◌, length, drop, if◌then◌else◌,
}
use iocoro.Io.{eof, broken_pipe, stream_error, Result, ok, unexpected, Answer, bytes, fails}

-- What one `async_write_some` gives: how many bytes it has taken, or its error.
pub data Taken : Type 0 where
  takes : ℕ → Taken
  write_fails : ℕ → Taken

module _ {S : Type 0} where
  -- One turn after its read; `next` is the loop's next turn.
  abbrev pub read_turn :
      (S → List ℕ → Option (Result × S × List ℕ))
      → S × Answer
      → List ℕ
      → Option (Result × S × List ℕ)
  read_turn next (s, fails e) filled = some (unexpected (stream_error e), s, filled)
  read_turn next (s, bytes []) filled = some (unexpected eof, s, filled)
  read_turn next (s, bytes (c ∷ cs)) filled = next s (filled ++ c ∷ cs)

  -- The loop over a buffer of size `wanted`; `none` where the fuel does not suffice.
  pub read_loop : (S → ℕ → S × Answer) → ℕ → S → ℕ → List ℕ → Option (Result × S × List ℕ)
  read_loop read_some zero s wanted filled = none
  read_loop read_some (suc fuel) s wanted filled =
      if wanted - length filled == 0
      then some (ok wanted, s, filled)
      else read_turn (λ t more. read_loop read_some fuel t wanted more)
          (read_some s (wanted - length filled)) filled

  pub async_read : (S → ℕ → S × Answer) → ℕ → S → ℕ → Option (Result × S × List ℕ)
  async_read read_some fuel s wanted = read_loop read_some fuel s wanted []

  abbrev pub write_turn :
      (S → List ℕ → Option (Result × S)) → S × Taken → List ℕ → Option (Result × S)
  write_turn next (s, write_fails e) buf = some (unexpected (stream_error e), s)
  write_turn next (s, takes zero) buf = some (unexpected broken_pipe, s)
  write_turn next (s, takes (suc n)) buf = next s (drop (suc n) buf)

  pub write_loop : (S → List ℕ → S × Taken) → ℕ → S → List ℕ → ℕ → Option (Result × S)
  write_loop write_some zero s buf wanted = none
  write_loop write_some (suc fuel) s buf wanted =
      if length buf == 0
      then some (ok wanted, s)
      else write_turn (λ t rest. write_loop write_some fuel t rest wanted) (write_some s buf) buf

  pub async_write : (S → List ℕ → S × Taken) → ℕ → S → List ℕ → Option (Result × S)
  async_write write_some fuel s buf = write_loop write_some fuel s buf (length buf)
