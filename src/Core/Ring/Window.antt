-- ===== src/Core/Ring/Window.antt =====
-- The queue that a ring holds, and the slots that its items stand in.
use Prim.Native.Nat.{bit_and, ◌∣◌}
use native.Mathlib.Nat.{
  add-zero, dvd_refl, dvd-mul_right_of_dvd, pow-suc, mod-add-mod, mod-eq_of_lt, mod-eq-sub-mod,
  mod-mod_of_dvd, pow-le-pow_right, mod-lt, one-le-pow,
}
use low_latency_project.Prelude.{
  ℕ, zero, suc, ◌+◌, ◌-◌, ◌%◌, ◌^◌, ◌≤◌, ◌<◌, ◌≡◌, refl, sym, ap, ◌∙◌, false, some, List, [], ◌∷◌,
  ◌++◌, arith, ltb, ◌==◌, length, length-append, get_elem?, update, Bool-cases, ltb→lt, ltb→le, inl,
  inr, ◌⊎◌,
}
use low_latency_project.Prelude.Bits.{bit_and_low_mask}
use low_latency_project.Core.Ring.{RingBuffer, size_add, size_sub, mask}

-- `start` counts the items ever taken out: the counters of the code are it and its sum with the
-- number of items, modulo 2 ^ 64. `static_assert` makes the capacity a power of two.
pub record Holds {T : Type 0} (k : ℕ) (r : RingBuffer T) (start : ℕ) (xs : List T) : Type 0 where
  pub small : k ≤ 63
  pub head_is : r.head ≡ start % 2 ^ 64
  pub tail_is : r.tail ≡ (start + length xs) % 2 ^ 64
  pub fits : length xs ≤ 2 ^ k
  pub stored : (i : ℕ) (x : T) → get_elem? xs i ≡ some x → r.buffer ((start + i) % 2 ^ k) ≡ x

pow-dvd-pow : (k j : ℕ) → 2 ^ k ∣ 2 ^ (k + j)
pow-dvd-pow k zero = rw add-zero (dvd_refl (2 ^ k))
pow-dvd-pow k (suc j) =
    let next : k + suc j ≡ suc (k + j) = omega arith in
    rw (next, pow-suc) (dvd-mul_right_of_dvd (2 ^ k) (pow-dvd-pow k j) 2)

module _ {k : ℕ} (small : k ≤ 63) where
  pub capacity_bounds : (1 ≤ 2 ^ k) × (2 ^ k ≤ 2 ^ 63)
  capacity_bounds = (one-le-pow k 2 (omega arith), pow-le-pow_right {n = 2} (omega arith) small)

  divides : 2 ^ k ∣ 2 ^ 64
  divides = let e : k + (64 - k) ≡ 64 = omega arith in rw e at (pow-dvd-pow k (64 - k))

  -- Masking a wrapped counter is the remainder of the unbounded count.
  pub slot_of : (n : ℕ) → bit_and (n % 2 ^ 64) (mask (2 ^ k)) ≡ n % 2 ^ k
  slot_of n = bit_and_low_mask k (n % 2 ^ 64) ∙ mod-mod_of_dvd (2 ^ k) n divides

-- Two counts less than a capacity apart have different slots.
pub slots_differ : (c a d : ℕ) → 0 < d → d < c → (a % c == (a + d) % c) ≡ false
slots_differ c a d lo hi = elim (Bool-cases (ltb (a % c + d) c)) [
  | inl below ↦ ground (
    arith,
    mod-lt a {m = c} (omega arith),
    mod-add-mod a c d,
    mod-eq_of_lt {n = a % c + d} {m = c} (ltb→lt _ _ below),
  )
  | inr above ↦ ground (
    arith,
    mod-lt a {m = c} (omega arith),
    mod-add-mod a c d,
    mod-eq-sub-mod {n = a % c + d} {m = c} (ltb→le _ _ above),
    mod-eq_of_lt {n = a % c + d - c} {m = c} (omega (arith, mod-lt a {m = c} (omega arith))),
  )
]

module _ {T : Type 0} where
  -- The item behind the last one.
  get_elem?-append :
      (xs : List T) (x : T) (i : ℕ) (y : T)
      → get_elem? (xs ++ (x ∷ [])) i ≡ some y
      → (get_elem? xs i ≡ some y) ⊎ ((i ≡ length xs) × (x ≡ y))
  get_elem?-append [] x zero y h = inr (refl, cc)
  get_elem?-append [] x (suc i) y h = cc
  get_elem?-append (z ∷ xs) x zero y h = inl h
  get_elem?-append (z ∷ xs) x (suc i) y h = elim (get_elem?-append xs x i y h) [
    | inl old ↦ inl old
    | inr (e, new) ↦ inr (ap suc e, new)
  ]

  index-lt-length : (xs : List T) (i : ℕ) (y : T) → get_elem? xs i ≡ some y → i < length xs
  index-lt-length [] i y h = cc
  index-lt-length (x ∷ xs) zero y h = omega arith
  index-lt-length (x ∷ xs) (suc i) y h = omega (arith, index-lt-length xs i y h)

module _ {T : Type 0} {k : ℕ} {r : RingBuffer T} {start : ℕ} where
  -- The difference of the wrapped counters is the number of items.
  pub size_is : {xs : List T} → Holds k r start xs → size_sub r.tail r.head ≡ length xs
  size_is {xs} h = omega (
    arith,
    h.head_is,
    h.tail_is,
    h.fits,
    (capacity_bounds h.small).0,
    (capacity_bounds h.small).1,
  )

  -- What `push` compares with the capacity is the number of items after it.
  pub next_size_is :
      {xs : List T} → Holds k r start xs → size_sub (size_add r.tail 1) r.head ≡ length xs + 1
  next_size_is {xs} h = omega (
    arith,
    h.head_is,
    h.tail_is,
    h.fits,
    (capacity_bounds h.small).0,
    (capacity_bounds h.small).1,
  )

  -- The slots that the counters name.
  pub tail_slot :
      {xs : List T}
      → Holds k r start xs
      → bit_and r.tail (mask (2 ^ k)) ≡ (start + length xs) % 2 ^ k
  tail_slot {xs} h =
      ap (λ t. bit_and t (mask (2 ^ k))) h.tail_is ∙ slot_of h.small (start + length xs)

  pub head_slot : {xs : List T} → Holds k r start xs → bit_and r.head (mask (2 ^ k)) ≡ start % 2 ^ k
  head_slot h = ap (λ t. bit_and t (mask (2 ^ k))) h.head_is ∙ slot_of h.small start

  -- The slot behind the last item is free: writing there loses no item.
  pub Holds-write :
      {xs : List T} (x : T)
      → Holds k r start xs
      → length xs < 2 ^ k
      → Holds k (record r { buffer = update r.buffer (bit_and r.tail (mask (2 ^ k))) x }) start xs
  Holds-write {xs} x h room = record {
    small = h.small;
    head_is = h.head_is;
    tail_is = h.tail_is;
    fits = h.fits;
    stored = λ i y e.
        let before : i < length xs = index-lt-length xs i y e in
        let far = slots_differ (2 ^ k) (start + i) (length xs - i) (omega arith) (omega arith) in
        let at_end : start + i + (length xs - i) ≡ start + length xs = omega arith in
        rw (tail_slot h, rw at_end at far) (h.stored i y e);
  }

  -- With the item in place, moving the tail adds it to the queue.
  pub Holds-advance_tail :
      {xs : List T} (x : T)
      → Holds k r start xs
      → length xs < 2 ^ k
      → r.buffer (bit_and r.tail (mask (2 ^ k))) ≡ x
      → Holds k (record r { tail = size_add r.tail 1 }) start (xs ++ (x ∷ []))
  Holds-advance_tail {xs} x h room there = record {
    small = h.small;
    head_is = h.head_is;
    tail_is = omega (arith, h.tail_is, length-append xs (x ∷ []));
    fits = omega (arith, length-append xs (x ∷ []));
    stored = λ i y e. elim (get_elem?-append xs x i y e) [
      | inl old ↦ h.stored i y old
      | inr (last, same) ↦
          ap (λ n. r.buffer ((start + n) % 2 ^ k)) last
          ∙ ap r.buffer (sym (tail_slot h))
          ∙ there
          ∙ same
    ];
  }

  -- The item at the head is the oldest one.
  pub Holds-front :
      {x : T} {xs : List T}
      → Holds k r start (x ∷ xs)
      → r.buffer (bit_and r.head (mask (2 ^ k))) ≡ x
  Holds-front {x} h =
      let from_start : start ≡ start + 0 = omega arith in
      ap r.buffer (head_slot h ∙ ap (λ n. n % 2 ^ k) from_start) ∙ h.stored 0 x refl

  -- Moving the head drops the oldest item.
  pub Holds-advance_head :
      {x : T} {xs : List T}
      → Holds k r start (x ∷ xs)
      → Holds k (record r { head = size_add r.head 1 }) (start + 1) xs
  Holds-advance_head {x} {xs} h = record {
    small = h.small;
    head_is = omega (arith, h.head_is);
    tail_is =
        let e : start + suc (length xs) ≡ start + 1 + length xs = omega arith in
        h.tail_is ∙ ap (λ n. n % 2 ^ 64) e;
    fits = omega (arith, h.fits);
    stored = λ i y e.
        let next : start + 1 + i ≡ start + suc i = omega arith in
        ap (λ n. r.buffer (n % 2 ^ k)) next ∙ h.stored (suc i) y e;
  }
