-- ===== src/Metrics/Latency.antt =====
-- include/metrics/latency_tracker.hpp: `LatencyTracker`, a histogram by powers of two. The arithmetic on
-- `double` is an argument: `target_of` is `(uint64_t)(total * pct)`, `ns_of` the nanoseconds of a bucket.
pub mod Laws
use Prim.Native.Nat.{◌/◌}
use low_latency_project.Prelude.{
  ℕ, zero, suc, ◌+◌, ◌-◌, ◌*◌, ◌%◌, ◌^◌, ◌≤◌, Bool, true, false, Option, none, some, List, [], ◌∷◌,
  ◌++◌, ◌==◌, ltb, leb, if◌then◌else◌, length,
}

abbrev pub num_buckets : ℕ
num_buckets = 64

-- `tsc_delta | 1`
abbrev pub or_one : ℕ → ℕ
or_one n = n / 2 * 2 + 1

-- `63 - __builtin_clzll(n)`: the place of the highest bit among the first `fuel` ones.
unfoldable pub highest_bit : ℕ → ℕ → ℕ
highest_bit zero n = 0
highest_bit (suc fuel) n = let rest = highest_bit fuel (n / 2) in if ltb n 2 then 0 else suc rest

abbrev pub bucket_of : ℕ → ℕ
bucket_of tsc_delta = highest_bit 64 (or_one tsc_delta)

-- `buckets_[bucket].count.fetch_add(1)`
unfoldable pub count_one : ℕ → List ℕ → List ℕ
count_one i [] = []
count_one zero (n ∷ buckets) = (n + 1) % 2 ^ 64 ∷ buckets
count_one (suc i) (n ∷ buckets) = n ∷ count_one i buckets

unfoldable pub record_delta : ℕ → List ℕ → List ℕ
record_delta tsc_delta buckets = count_one (bucket_of tsc_delta) buckets

abbrev pub zeros : ℕ → List ℕ
zeros zero = []
zeros (suc n) = 0 ∷ zeros n

unfoldable pub reset : List ℕ → List ℕ
reset buckets = zeros num_buckets

-- The sum of the buckets, from a running total.
unfoldable pub total_from : ℕ → List ℕ → ℕ
total_from total [] = total
total_from total (n ∷ buckets) = total_from ((total + n) % 2 ^ 64) buckets

-- The first bucket from `i` on at which the cumulative count reaches the target.
unfoldable pub first_reaching : ℕ → ℕ → ℕ → List ℕ → Option ℕ
first_reaching target cumulative i [] = none
first_reaching target cumulative i (n ∷ buckets) =
    let reached = (cumulative + n) % 2 ^ 64 in
    let rest = first_reaching target reached (suc i) buckets in
    if leb target reached then some i else rest

unfoldable pub get_percentile : (ℕ → ℕ) → (ℕ → ℕ) → List ℕ → ℕ
get_percentile target_of ns_of buckets =
    let total = total_from 0 buckets in
    if total == 0
    then 0
    else elim (first_reaching (target_of total) 0 0 buckets) [ none ↦ 0 | some i ↦ ns_of i ]

-- The arithmetic on `double` of the three percentiles.
pub record Doubles : Type 0 where
  pub target_50 : ℕ → ℕ
  pub target_99 : ℕ → ℕ
  pub target_999 : ℕ → ℕ
  pub ns_of : ℕ → ℕ

abbrev pub get_p50 : Doubles → List ℕ → ℕ
get_p50 d buckets = get_percentile d.target_50 d.ns_of buckets

abbrev pub get_p99 : Doubles → List ℕ → ℕ
get_p99 d buckets = get_percentile d.target_99 d.ns_of buckets

abbrev pub get_p999 : Doubles → List ℕ → ℕ
get_p999 d buckets = get_percentile d.target_999 d.ns_of buckets

-- The inner loop of `report`: the targets that the bucket `i` reaches are printed, the others remain.
abbrev pub reached_targets : ℕ → ℕ → List ℕ → List ℕ × List ℕ
reached_targets cumulative i [] = ([], [])
reached_targets cumulative i (target ∷ targets) =
    let (printed, left) = reached_targets cumulative i targets in
    if leb target cumulative then (i ∷ printed, left) else ([], target ∷ targets)

-- The buckets that are printed, one for each target that is reached.
unfoldable pub report_from : ℕ → ℕ → List ℕ → List ℕ → List ℕ
report_from cumulative i targets [] = []
report_from cumulative i targets (n ∷ buckets) =
    let reached = (cumulative + n) % 2 ^ 64 in
    let (printed, left) = reached_targets reached i targets in
    printed ++ report_from reached (suc i) left buckets

-- The lines of `report`, as buckets for p50, p95, p99 and p999; none without samples.
unfoldable pub report : List ℕ → List ℕ
report buckets =
    let total = total_from 0 buckets in
    if total == 0
    then []
    else report_from 0 0
        (total / 2
          ∷ total * 95 % 2 ^ 64 / 100
          ∷ total * 99 % 2 ^ 64 / 100
          ∷ total * 999 % 2 ^ 64 / 1000
          ∷ [])
        buckets
