-- ===== src/Metrics/Latency/Laws.antt =====
-- What the histogram says of the samples.
use Prim.Native.Nat.{◌/◌}
use low_latency_project.Prelude.{
  take, get_elem?, ◌==◌, ℕ, zero, suc, ◌+◌, ◌*◌, ◌%◌, ◌^◌, ◌≡◌, ◌≤◌, ◌<◌, refl, ap, ◌∙◌, false,
  some, List, [], ◌∷◌, ltb, leb, if◌then◌else◌, length, arith, Bool-cases, inl, inr, ◌⊎◌,
}
use low_latency_project.Metrics.Latency.{
  highest_bit, bucket_of, or_one, count_one, record_delta, total_from, first_reaching, num_buckets,
}

pow_suc : (n : ℕ) → 2 ^ suc n ≡ 2 * 2 ^ n
pow_suc n = omega arith

highest_bit_lem :
    (fuel n : ℕ)
    → 0 < n
    → n < 2 ^ fuel
    → (2 ^ highest_bit fuel n ≤ n)
      × (n < 2 ^ (highest_bit fuel n + 1))
      × (highest_bit fuel n < fuel)
unfolding highest_bit
highest_bit_lem zero n some_n h = absurd (omega (arith, some_n, h))
highest_bit_lem (suc fuel) n some_n h = elim (Bool-cases (ltb n 2)) [
  | inl one ↦ rw one (omega arith, ground (arith, one), omega arith)
  | inr more ↦
      let two : 2 ≤ n = ground (arith, more) in
      let below : n < 2 * 2 ^ fuel = rw (pow_suc fuel) at h in
      let k = highest_bit fuel (n / 2) in
      let ih = highest_bit_lem fuel (n / 2) (omega (arith, two)) (omega (arith, below)) in
      let twice : 2 ^ (suc k + 1) ≡ 2 * 2 ^ (k + 1) =
        let e : suc k + 1 ≡ suc (k + 1) = omega arith in ap (λ m. 2 ^ m) e ∙ pow_suc (k + 1) in
      rw more (omega (arith, ih.0, pow_suc k), omega (arith, ih.1, twice), omega (arith, ih.2))
]

abbrev pub sum : List ℕ → ℕ
sum [] = 0
sum (n ∷ ns) = n + sum ns

total_from-sum : (t : ℕ) (ns : List ℕ) → t < 2 ^ 64 → total_from t ns ≡ (t + sum ns) % 2 ^ 64
unfolding total_from
total_from-sum t [] h = omega (arith, h)
total_from-sum t (n ∷ ns) h = total_from-sum ((t + n) % 2 ^ 64) ns (omega arith) ∙ omega arith

sum-count_one :
    (i : ℕ) (ns : List ℕ) → i < length ns → sum (count_one i ns) % 2 ^ 64 ≡ (sum ns + 1) % 2 ^ 64
unfolding count_one
sum-count_one i [] h = absurd (omega (arith, h))
sum-count_one zero (n ∷ ns) h = omega arith
sum-count_one (suc i) (n ∷ ns) h = omega (arith, sum-count_one i ns (omega (arith, h)))

-- A power of two up to an odd number is 1 or up to the even number in front of it.
below_even : (b n : ℕ) → 2 ^ b ≤ or_one n → (2 ^ b ≤ n) ⊎ ((n ≡ 0) × (b ≡ 0))
below_even zero zero h = inr (refl, refl)
below_even zero (suc n) h = inl (omega arith)
below_even (suc b) n h = inl (omega (arith, h, pow_suc b))

count_one-here :
    (i : ℕ) (buckets : List ℕ)
    → i < length buckets
    → (n : ℕ) × (get_elem? buckets i ≡ some n)
      × (get_elem? (count_one i buckets) i ≡ some ((n + 1) % 2 ^ 64))
unfolding count_one
count_one-here i [] h = absurd (omega (arith, h))
count_one-here zero (n ∷ buckets) h = (n, refl, refl)
count_one-here (suc i) (n ∷ buckets) h = count_one-here i buckets (omega (arith, h))

count_one-elsewhere :
    (i j : ℕ) (buckets : List ℕ)
    → (j == i) ≡ false
    → get_elem? (count_one i buckets) j ≡ get_elem? buckets j
unfolding count_one
count_one-elsewhere i j [] other = refl
count_one-elsewhere zero zero (n ∷ buckets) other = absurd (ground (arith, other))
count_one-elsewhere zero (suc j) (n ∷ buckets) other = refl
count_one-elsewhere (suc i) zero (n ∷ buckets) other = refl
count_one-elsewhere (suc i) (suc j) (n ∷ buckets) other =
    count_one-elsewhere i j buckets (ground (arith, other))

-- The bucket `i` is for the samples from 2 ^ i up to below 2 ^ (i + 1), the first one also for 0.
abbrev pub IsBucket : ℕ → ℕ → Type 0
IsBucket x i = ((2 ^ i ≤ x) ⊎ ((x ≡ 0) × (i ≡ 0))) × (x < 2 ^ (i + 1))

-- The bucket `i` counts one more, modulo 2 ^ 64, and every other bucket what it counted.
pub record Counted (i : ℕ) (before after : List ℕ) : Type 0 where
  pub count : ℕ
  pub was : get_elem? before i ≡ some count
  pub is : get_elem? after i ≡ some ((count + 1) % 2 ^ 64)
  pub others : (j : ℕ) → (j == i) ≡ false → get_elem? after j ≡ get_elem? before j

-- A sample of 64 bits is counted once in the bucket of its highest power of two, 0 in the bucket 0, and
-- every other of the 64 buckets is as it was; the tracker then counts one sample more, modulo 2 ^ 64.
pub record_delta_lem :
    (x : ℕ) (buckets : List ℕ)
    → x < 2 ^ 64
    → length buckets ≡ num_buckets
    → (i : ℕ) × IsBucket x i
      × Counted i buckets (record_delta x buckets)
      × (total_from 0 (record_delta x buckets) ≡ (total_from 0 buckets + 1) % 2 ^ 64)
unfolding record_delta
record_delta_lem x buckets small sized =
    let bit = highest_bit_lem 64 (or_one x) (omega arith) (omega (arith, small)) in
    let inside : bucket_of x < length buckets = omega (arith, bit.2, sized) in
    let (n, was, is) = count_one-here (bucket_of x) buckets inside in
    (
      bucket_of x,
      (below_even (bucket_of x) x bit.0, omega (arith, bit.1)),
      record {
        count = n;
        was = was;
        is = is;
        others = λ j other. count_one-elsewhere (bucket_of x) j buckets other;
      },
      total_from-sum 0 (count_one (bucket_of x) buckets) (omega arith)
          ∙ omega (
            arith,
            sum-count_one (bucket_of x) buckets inside,
            total_from-sum 0 buckets (omega arith),
          ),
    )

first_reaching-later :
    (target c k n : ℕ) (ns : List ℕ)
    → (c + n) % 2 ^ 64 ≡ c + n
    → leb target (c + n) ≡ false
    → first_reaching target c k (n ∷ ns) ≡ first_reaching target (c + n) (suc k) ns
unfolding first_reaching
first_reaching-later target c k n ns exact there =
    ap (λ r. if leb target r then some k else first_reaching target r (suc k) ns) exact
    ∙ ap (λ t. if t then some k else first_reaching target (c + n) (suc k) ns) there

reaching_from :
    (target c k : ℕ) (ns : List ℕ)
    → c < target
    → target ≤ c + sum ns
    → c + sum ns < 2 ^ 64
    → (i : ℕ) × (first_reaching target c k ns ≡ some (k + i))
      × (c + sum (take i ns) < target)
      × (target ≤ c + sum (take (suc i) ns))
unfolding first_reaching
reaching_from target c k [] low enough fits = absurd (omega (arith, low, enough))
reaching_from target c k (n ∷ ns) low enough fits =
    let exact : (c + n) % 2 ^ 64 ≡ c + n = omega (arith, fits) in
    elim (Bool-cases (leb target (c + n))) [
      | inl here ↦
          let here_is : k ≡ k + 0 = omega arith in
          (0, rw (exact, here) (ap some here_is), omega (arith, low), ground (arith, here))
      | inr there ↦
          let (i, e, before, behind) =
            reaching_from target (c + n) (suc k) ns (ground (arith, there)) (omega (arith, enough))
              (omega (arith, fits)) in
          let there_is : suc k + i ≡ k + suc i = omega arith in
          (
            suc i,
            first_reaching-later target c k n ns exact there ∙ e ∙ ap some there_is,
            omega (arith, before),
            omega (arith, behind),
          )
    ]

-- With counts that do not overflow, a target above 0 and up to their total is reached at one bucket:
-- the counts in front of it stay below the target, and with its own they reach it.
pub first_reaching_lem :
    (target : ℕ) (buckets : List ℕ)
    → 0 < target
    → target ≤ sum buckets
    → sum buckets < 2 ^ 64
    → (i : ℕ) × (first_reaching target 0 0 buckets ≡ some i)
      × (sum (take i buckets) < target)
      × (target ≤ sum (take (suc i) buckets))
first_reaching_lem target buckets some_target enough fits =
    let (i, e, before, behind) =
      reaching_from target 0 0 buckets some_target (omega (arith, enough)) (omega (arith, fits)) in
    let i_is : 0 + i ≡ i = omega arith in
    (i, e ∙ ap some i_is, omega (arith, before), omega (arith, behind))
