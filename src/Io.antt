-- ===== src/Io.antt =====
-- The composed operations of include/iocoro/io/. A byte is a number. The stream is a parameter: a
-- state, and what `async_read_some` or `async_write_some` does to it for a buffer of a given size.
pub mod Search
pub mod ReadUntil
pub mod Transfer
pub mod ByteByByte
use iocoro.Base.{ℕ, List}

pub data Error : Type 0 where
  eof message_size invalid_argument broken_pipe : Error
  -- An error of the stream's own.
  stream_error : ℕ → Error

pub data Result : Type 0 where
  ok : ℕ → Result
  unexpected : Error → Result

-- What one `async_read_some` gives: the bytes it has written to the buffer, or its error.
pub data Answer : Type 0 where
  bytes : List ℕ → Answer
  fails : ℕ → Answer
