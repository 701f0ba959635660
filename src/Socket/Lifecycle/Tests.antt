-- ===== src/Socket/Lifecycle/Tests.antt =====
-- The theorems on the life of a descriptor at concrete histories.
use iocoro.Base.{◌+◌, ◌≡◌, none, true, List, [], ◌∷◌, count, indicator, pos}
use iocoro.Socket.Lifecycle.{
  Call, opens, created, assigns, releases, begins, ends, destroys, initial, run, all_given,
  all_returned,
}
use iocoro.Socket.Lifecycle.Ownership.{owned, owned_once}

-- Descriptor 5 is opened, replaced by 6 while it is read, and destroyed; 6 is given back.
abbrev history : List Call
history =
    opens (created 5) (record { flags_fail = none; added = true })
    ∷ begins 0
    ∷ assigns (pos 6) (record { flags_fail = none; added = true })
    ∷ ends 0
    ∷ destroys 0
    ∷ releases
    ∷ []

owned_once_example :
    (owned (indicator 5) (run initial history) + count 5 (run initial history).closed)
      + count 5 (all_returned initial history)
    ≡ count 5 (all_given initial history)
owned_once_example = owned_once history 5
