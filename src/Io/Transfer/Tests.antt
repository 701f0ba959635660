-- ===== src/Io/Transfer/Tests.antt =====
-- The theorems on include/iocoro/io/read.hpp and write.hpp at concrete streams.
use iocoro.Base.{ℕ, ◌≡◌, List, [], ◌∷◌, ◌++◌, some, arith}
use iocoro.Io.{ok}
use iocoro.Io.ByteByByte.{read_one, reads_one, read_one-fits, write_one, writes_one}
use iocoro.Io.Transfer.{async_read, async_write}
use iocoro.Io.Transfer.Reads.{Ends, async_read-Ends}
use iocoro.Io.Transfer.Writes.{async_write-ends}

abbrev message : List ℕ
message = 104 ∷ 105 ∷ 10 ∷ []

async_read-Ends_example :
    Ends read_one reads_one read_one-fits (async_read read_one 3 message 2) 2 message
async_read-Ends_example = async_read-Ends read_one reads_one read_one-fits 3 message 2 (omega arith)

async_write-ends_example :
    (t : List ℕ) × (async_write write_one 4 [] message ≡ some (ok 3, t)) × (t ≡ [] ++ message)
async_write-ends_example = async_write-ends write_one writes_one 4 [] message (omega arith)
