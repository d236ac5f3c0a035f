-- ===== src/Loadtest/Order.antt =====
-- The result of a load test does not depend on the order in which the requests end.
use wbsv.Common.{
  ℕ, ◌+◌, ◌<◌, ◌≡◌, refl, sym, ap, ◌∙◌, Bool, false, not, ◌&&◌, some, List, [], ◌∷◌, arith, ltb,
  ◌==◌, if◌then◌else◌, length, All, ℤ,
}
use mathlib.Core.List.{Perm, foldr}
use mathlib.Core.List.Perm
use native.Mathlib.Nat.{ℕ_set}
use wbsv.Loadtest.{
  invalid_config, Config, no_results, summary_of, run, bump, tally_one, tally_all, count_of, Tally,
  RequestResult, Summary,
}

-- A sum over the results.
abbrev total : (RequestResult → ℕ) → List RequestResult → ℕ
total g = foldr (λ r n. g r + n) 0

total-perm :
    (g : RequestResult → ℕ) (xs ys : List RequestResult) → Perm xs ys → total g xs ≡ total g ys
total-perm g xs ys p = Perm.foldr-eq ℕ_set (λ r n. g r + n) (λ a b n. omega arith) p 0

abbrev larger : ℕ → ℕ → ℕ
larger a b = if ltb a b then b else a

-- The smaller of two latencies, where 0 is none.
abbrev shorter : ℕ → ℕ → ℕ
shorter a b = if a == 0 then b else if b == 0 then a else if ltb b a then b else a

abbrev largest : List RequestResult → ℕ
largest = foldr (λ r n. larger r.latency n) 0

abbrev shortest : List RequestResult → ℕ
shortest = foldr (λ r n. shorter r.latency n) 0

largest-perm : (xs ys : List RequestResult) → Perm xs ys → largest xs ≡ largest ys
largest-perm xs ys p =
    Perm.foldr-eq ℕ_set (λ r n. larger r.latency n) (λ a b n. swaps a.latency b.latency n) p 0
  where
    swaps : (a b n : ℕ) → larger a (larger b n) ≡ larger b (larger a n)
    swaps a b n = ground arith

shortest-perm : (xs ys : List RequestResult) → Perm xs ys → shortest xs ≡ shortest ys
shortest-perm xs ys p =
    Perm.foldr-eq ℕ_set (λ r n. shorter r.latency n) (λ a b n. swaps a.latency b.latency n) p 0
  where
    swaps : (a b n : ℕ) → shorter a (shorter b n) ≡ shorter b (shorter a n)
    swaps a b n = ground arith

abbrev one_if : Bool → ℕ
one_if test = if test then 1 else 0

abbrev kept_bytes : RequestResult → ℕ
kept_bytes r = if r.fails then 0 else r.bytes_read

abbrev has_code : ℕ → RequestResult → ℕ
has_code code r = one_if (not r.fails && r.status_code == code)

count_of-bump :
    (code c : ℕ) (counts : List (ℕ × ℕ))
    → count_of code (bump c counts) ≡ count_of code counts + one_if (c == code)
unfolding count_of bump
count_of-bump code c [] = ground arith
count_of-bump code c ((d, n) ∷ counts) = ground (arith, count_of-bump code c counts)

-- The loop, from any state of its variables.
record IsTally (t : Tally) (xs : List RequestResult) (out : Tally) : Type 0 where
  completed : out.completed ≡ t.completed + total (λ r. one_if (not r.fails)) xs
  failed : out.failed ≡ t.failed + total (λ r. one_if r.fails) xs
  bytes_read : out.bytes_read ≡ t.bytes_read + total kept_bytes xs
  counts :
      (code : ℕ)
      → count_of code out.status_counts ≡ count_of code t.status_counts + total (has_code code) xs
  min_latency : out.min_latency ≡ shorter t.min_latency (shortest xs)
  max_latency : out.max_latency ≡ larger t.max_latency (largest xs)
  total_latency : out.total_latency ≡ t.total_latency + total (λ r. r.latency) xs

tally_all-IsTally :
    (t : Tally) (xs : List RequestResult)
    → All (λ r. 0 < r.latency) xs
    → IsTally t xs (tally_all t xs)
unfolding tally_all tally_one
tally_all-IsTally t [] h = record {
  completed = omega arith;
  failed = omega arith;
  bytes_read = omega arith;
  counts = λ code. omega arith;
  min_latency = ground arith;
  max_latency = ground arith;
  total_latency = omega arith;
}
tally_all-IsTally t (r ∷ xs) (p, h) =
    let d = tally_all-IsTally (tally_one t r) xs h in
    record {
      completed = ground (arith, d.completed);
      failed = ground (arith, d.failed);
      bytes_read = ground (arith, d.bytes_read);
      counts =
          λ code. ground (arith, d.counts code, count_of-bump code r.status_code t.status_counts);
      min_latency = ground (arith, d.min_latency);
      max_latency = ground (arith, d.max_latency);
      total_latency = omega (arith, d.total_latency);
    }

-- Two results that say the same: their maps have the same counts.
pub record SameSummary (a b : Summary) : Type 0 where
  pub requests : a.requests ≡ b.requests
  pub completed : a.completed ≡ b.completed
  pub failed : a.failed ≡ b.failed
  pub bytes_read : a.bytes_read ≡ b.bytes_read
  pub counts : (code : ℕ) → count_of code a.status_counts ≡ count_of code b.status_counts
  pub duration : a.duration ≡ b.duration
  pub min_latency : a.min_latency ≡ b.min_latency
  pub max_latency : a.max_latency ≡ b.max_latency
  pub avg_latency : a.avg_latency ≡ b.avg_latency

abbrev unmeasured : RequestResult → ℕ
unmeasured r = one_if (r.latency == 0)

positive-total : (xs : List RequestResult) → All (λ r. 0 < r.latency) xs → total unmeasured xs ≡ 0
positive-total [] h = refl
positive-total (r ∷ xs) (p, h) = ground (arith, positive-total xs h)

total-positive : (xs : List RequestResult) → total unmeasured xs ≡ 0 → All (λ r. 0 < r.latency) xs
total-positive [] h = tt
total-positive (r ∷ xs) h = (ground arith, total-positive xs (ground arith))

-- Every result is counted, as completed or as failed.
total-fails :
    (xs : List RequestResult)
    → total (λ r. one_if (not r.fails)) xs + total (λ r. one_if r.fails) xs ≡ length xs
total-fails [] = refl
total-fails (r ∷ xs) = ground (arith, total-fails xs)

tally_all-perm :
    (requests : ℤ) (duration : ℕ) (xs ys : List RequestResult)
    → Perm xs ys
    → All (λ r. 0 < r.latency) xs
    → SameSummary
        (summary_of requests duration (tally_all no_results xs))
        (summary_of requests duration (tally_all no_results ys))
unfolding summary_of
tally_all-perm requests duration xs ys p h =
    let a = tally_all-IsTally no_results xs h in
    let measured = total-positive ys (sym (total-perm unmeasured xs ys p) ∙ positive-total xs h) in
    let b = tally_all-IsTally no_results ys measured in
    let completed : (tally_all no_results xs).completed ≡ (tally_all no_results ys).completed =
      omega (arith, a.completed, total-perm (λ r. one_if (not r.fails)) xs ys p, b.completed) in
    let failed : (tally_all no_results xs).failed ≡ (tally_all no_results ys).failed =
      omega (arith, a.failed, total-perm (λ r. one_if r.fails) xs ys p, b.failed) in
    let latency : (tally_all no_results xs).total_latency
        ≡ (tally_all no_results ys).total_latency =
      omega (arith, a.total_latency, total-perm (λ r. r.latency) xs ys p, b.total_latency) in
    record {
      requests = refl;
      completed = completed;
      failed = failed;
      bytes_read = omega (arith, a.bytes_read, total-perm kept_bytes xs ys p, b.bytes_read);
      counts =
          λ code. omega (arith, a.counts code, total-perm (has_code code) xs ys p, b.counts code);
      duration = refl;
      min_latency = a.min_latency ∙ ap (shorter 0) (shortest-perm xs ys p) ∙ sym b.min_latency;
      max_latency = a.max_latency ∙ ap (larger 0) (largest-perm xs ys p) ∙ sym b.max_latency;
      avg_latency = rw (completed, failed, latency) refl;
    }

-- With a configuration that is accepted, and latencies that are all positive, `Run` gives the same
-- numbers in whatever order the results arrive: the counts of completed and failed requests and of each
-- status, the bytes, and the latencies; and every result is counted, as completed or as failed.
pub run-perm :
    (config : Config) (duration : ℕ) (xs ys : List RequestResult)
    → invalid_config config ≡ false
    → Perm xs ys
    → All (λ r. 0 < r.latency) xs
    → (a b : Summary) × (run config duration xs ≡ some a)
      × (run config duration ys ≡ some b)
      × SameSummary a b
      × (a.completed + a.failed ≡ length xs)
unfolding run summary_of
run-perm config duration xs ys valid p h = (
  summary_of config.requests duration (tally_all no_results xs),
  summary_of config.requests duration (tally_all no_results ys),
  rw valid refl,
  rw valid refl,
  tally_all-perm config.requests duration xs ys p h,
  all_counted (tally_all-IsTally no_results xs h),
)
  where
    all_counted :
        IsTally no_results xs (tally_all no_results xs)
        → (tally_all no_results xs).completed + (tally_all no_results xs).failed ≡ length xs
    all_counted d = omega (arith, d.completed, d.failed, total-fails xs)
