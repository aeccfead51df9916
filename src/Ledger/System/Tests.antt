-- ===== src/Ledger/System/Tests.antt =====
-- A short life of the ledger object of src/do/ledger-do.ts.
use edgepay_cf.Prelude.{true, false}
use edgepay_cf.Ledger.Tests.{env, capture}
use edgepay_cf.Ledger.Mirror.{answers}
use edgepay_cf.Ledger.System.{System, initial, after_post, after_drain, post, drain, here, next}
use edgepay_cf.Ledger.System.Safe.{IsSafe, Reach-IsSafe}

-- A posting, a drain that D1 takes, and the posting again.
abbrev posted_once : System
posted_once = after_post env answers 5 6 capture (initial 0)

abbrev drained_once : System
drained_once = after_drain env false true 7 8 9 posted_once

abbrev posted_again : System
posted_again = after_post env answers 10 11 capture drained_once

Reach-IsSafe_example : IsSafe posted_again
Reach-IsSafe_example = Reach-IsSafe env 0 posted_again (
    next
      (next (next here (post answers 5 6 capture (initial 0))) (drain false true 7 8 9 posted_once))
      (post answers 10 11 capture drained_once))
