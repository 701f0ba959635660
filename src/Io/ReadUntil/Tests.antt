-- ===== src/Io/ReadUntil/Tests.antt =====
-- The theorems on include/iocoro/io/read_until.hpp at concrete streams.
use iocoro.Base.{ℕ, ◌≡◌, List, [], ◌∷◌, some, arith, refl}
use iocoro.Io.{ok}
use iocoro.Io.ByteByByte.{read_one, reads_one}
use iocoro.Io.ReadUntil.{async_read_until}
use iocoro.Io.ReadUntil.Incremental.{plain_read_until, async_read_until-plain}
use iocoro.Io.ReadUntil.Occurrence.{async_read_until-end}

abbrev coming : List ℕ
coming = 13 ∷ 10 ∷ 98 ∷ []

async_read_until-plain_example :
    async_read_until read_one 9 coming (97 ∷ []) 8 (13 ∷ 10 ∷ [])
    ≡ plain_read_until read_one 9 coming (97 ∷ []) 8 (13 ∷ 10 ∷ [])
async_read_until-plain_example = async_read_until-plain read_one 9 coming (97 ∷ []) 8 (13 ∷ 10 ∷ [])

async_read_until-end_example :
    async_read_until read_one 9 coming (97 ∷ []) 8 (13 ∷ 10 ∷ []) ≡ some (ok 3)
async_read_until-end_example =
    async_read_until-end read_one reads_one 9 coming (97 ∷ []) 8 13 (10 ∷ []) 1 (omega arith)
      (omega arith) (omega arith) refl
