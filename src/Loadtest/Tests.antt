-- ===== src/Loadtest/Tests.antt =====
-- Tests of the load test on concrete results, and its theorems at them.
use mathlib.Core.List.Perm
use wbsv.Common.{◌+◌, ◌≡◌, refl, true, false, some, [], ◌∷◌, arith, codes, pos}
use wbsv.Loadtest.{run, RequestResult, Config, Summary, invalid_config}
use wbsv.Loadtest.Order.{run-perm, SameSummary}

abbrev small : Config
small = record {
  url = codes "http://127.0.0.1:8080/";
  method = [];
  requests = pos 2;
  concurrency = pos 2;
}

abbrev fine : RequestResult
fine = record { status_code = 200; bytes_read = 17; latency = 5; fails = false }

abbrev broken : RequestResult
broken = record { status_code = 0; bytes_read = 0; latency = 3; fails = true }

invalid_config-small : invalid_config small ≡ false
unfolding invalid_config
invalid_config-small = refl

run-perm_example :
    (a b : Summary) × (run small 9 (fine ∷ broken ∷ []) ≡ some a)
    × (run small 9 (broken ∷ fine ∷ []) ≡ some b)
    × SameSummary a b
    × (a.completed + a.failed ≡ 2)
run-perm_example =
    run-perm small 9 (fine ∷ broken ∷ []) (broken ∷ fine ∷ []) invalid_config-small
      (Perm.swap broken fine []) (omega arith, (omega arith, tt))
