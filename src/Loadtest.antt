-- ===== src/Loadtest.antt =====
-- internal/loadtest/loadtest.go: what a load test adds up. The requests run in as many goroutines as the
-- configuration says, so that their results arrive in any order; times are in nanoseconds, and the sums
-- are taken to fit their integers.
pub mod Flags
pub mod Order
pub mod Tests
use wbsv.Common.{
  ℕ, ◌+◌, ◌/◌, Bool, true, ◌||◌, Option, none, some, List, [], ◌∷◌, ltb, leb, ◌==◌, if◌then◌else◌,
  Bytes, codes, ℤ, leb_ℤ, pos,
}
use wbsv.Http1.Header.{is_empty}

-- `Config`, without what only the client reads
pub record Config : Type 0 where
  pub url : Bytes
  pub method : Bytes
  pub requests : ℤ
  pub concurrency : ℤ

-- `requestResult`
pub record RequestResult : Type 0 where
  pub status_code : ℕ
  pub bytes_read : ℕ
  pub latency : ℕ
  pub fails : Bool

-- What the client makes of one request: it cannot be built, it gets no response, or one with a status,
-- whose body is read, it may be not to its end.
pub data Attempt : Type 0 where
  not_built : Attempt
  no_response : Attempt
  responded : ℕ → ℕ → Bool → Attempt

-- `executeRequest`, for the time that it took
unfoldable pub execute_request : Attempt → ℕ → RequestResult
execute_request Attempt.not_built latency = record {
  status_code = 0;
  bytes_read = 0;
  latency = latency;
  fails = true;
}
execute_request Attempt.no_response latency = record {
  status_code = 0;
  bytes_read = 0;
  latency = latency;
  fails = true;
}
execute_request (Attempt.responded code bytes breaks) latency = record {
  status_code = code;
  bytes_read = bytes;
  latency = latency;
  fails = breaks;
}

-- the method that `Run` puts in place of an empty one
unfoldable pub with_method : Config → Config
with_method config =
    if is_empty config.method then record config { method = codes "GET" } else config

-- `Result`; the map of counts is a list of its entries, one for each code
pub record Summary : Type 0 where
  pub requests : ℤ
  pub completed : ℕ
  pub failed : ℕ
  pub bytes_read : ℕ
  pub status_counts : List (ℕ × ℕ)
  pub duration : ℕ
  pub min_latency : ℕ
  pub max_latency : ℕ
  pub avg_latency : ℕ

-- `validateConfig`; `true` is `ErrInvalidConfig`
unfoldable pub invalid_config : Config → Bool
invalid_config config =
    is_empty config.url || leb_ℤ config.requests (pos 0) || leb_ℤ config.concurrency (pos 0)

-- `counts[code]++`
unfoldable pub bump : ℕ → List (ℕ × ℕ) → List (ℕ × ℕ)
bump code [] = (code, 1) ∷ []
bump code ((c, n) ∷ counts) =
    let rest = bump code counts in if c == code then (c, n + 1) ∷ counts else (c, n) ∷ rest

-- `counts[code]`
unfoldable pub count_of : ℕ → List (ℕ × ℕ) → ℕ
count_of code [] = 0
count_of code ((c, n) ∷ counts) = let rest = count_of code counts in if c == code then n else rest

-- The variables of the loop over the results.
pub record Tally : Type 0 where
  pub completed : ℕ
  pub failed : ℕ
  pub bytes_read : ℕ
  pub status_counts : List (ℕ × ℕ)
  pub min_latency : ℕ
  pub max_latency : ℕ
  pub total_latency : ℕ

abbrev pub no_results : Tally
no_results = record {
  completed = 0;
  failed = 0;
  bytes_read = 0;
  status_counts = [];
  min_latency = 0;
  max_latency = 0;
  total_latency = 0;
}

-- one round of the loop
unfoldable pub tally_one : Tally → RequestResult → Tally
tally_one t r = record {
  completed = if r.fails then t.completed else t.completed + 1;
  failed = if r.fails then t.failed + 1 else t.failed;
  bytes_read = if r.fails then t.bytes_read else t.bytes_read + r.bytes_read;
  status_counts = if r.fails then t.status_counts else bump r.status_code t.status_counts;
  min_latency =
      if t.min_latency == 0 || ltb r.latency t.min_latency then r.latency else t.min_latency;
  max_latency = if ltb t.max_latency r.latency then r.latency else t.max_latency;
  total_latency = t.total_latency + r.latency;
}

unfoldable pub tally_all : Tally → List RequestResult → Tally
unfolding tally_one
tally_all t [] = t
tally_all t (r ∷ results) = tally_all (tally_one t r) results

-- the result of `Run`, for the results in the order of their arrival
unfoldable pub summary_of : ℤ → ℕ → Tally → Summary
summary_of requests duration t =
    let attempts = t.completed + t.failed in
    record {
      requests = requests;
      completed = t.completed;
      failed = t.failed;
      bytes_read = t.bytes_read;
      status_counts = t.status_counts;
      duration = duration;
      min_latency = t.min_latency;
      max_latency = t.max_latency;
      avg_latency = if ltb 0 attempts then t.total_latency / attempts else 0;
    }

-- `Run`, where the context is not cancelled; `none` is `ErrInvalidConfig`
unfoldable pub run : Config → ℕ → List RequestResult → Option Summary
unfolding summary_of tally_all
run config duration results =
    if invalid_config config
    then none
    else some (summary_of config.requests duration (tally_all no_results results))

-- `sort.Ints`
unfoldable pub sort_in : ℕ → List ℕ → List ℕ
sort_in n [] = n ∷ []
sort_in n (m ∷ ms) = let rest = sort_in n ms in if leb n m then n ∷ m ∷ ms else m ∷ rest

-- `SortedStatusCodes`
unfoldable pub sorted_status_codes : List (ℕ × ℕ) → List ℕ
unfolding sort_in
sorted_status_codes [] = []
sorted_status_codes ((code, n) ∷ counts) = sort_in code (sorted_status_codes counts)
