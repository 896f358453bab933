-- ===== src/Demo/Progress.antt =====
-- When the feed ends: with room, or with a consumer; and that it does not end without either.
use mathlib.Core.Path.{subst, ap₂}
use mathlib.Core.List.{append_assoc, append-nil}
use low_latency_project.Prelude.{
  ℕ, zero, suc, ◌+◌, ◌-◌, drop, ◌≡◌, ◌≤◌, ◌<◌, ◌⊎◌, refl, sym, ap, ◌∙◌, none, some, List, [], ◌∷◌,
  ◌++◌, ltb, length, length-append, arith, inl, inr, Bool-cases,
}
use low_latency_project.Core.Types.{OrderId}
use low_latency_project.Core.Ring.{RingBuffer, push}
use low_latency_project.Core.Ring.Queue
use low_latency_project.Core.Ring.Window.{Holds}
use low_latency_project.Core.Ring.Refine.{pop_refines}
use low_latency_project.Order.Record.{Order}
use low_latency_project.Engine.Run.{ring_capacity}
use low_latency_project.Demo.{Draw, drawn_order, push_when_room, synthetic_feed}
use low_latency_project.Demo.Attempts.{
  push-room, push-full, push_when_room-pushed, push_when_room-again, push_when_room-none,
  push_when_room-stuck, synthetic_feed-pushed, synthetic_feed-waits, drawn, take_one, idle,
}

with_room :
    (fuel : ℕ) (i : OrderId) (draws : List Draw) (ring : RingBuffer Order) (start : ℕ)
    (q : List Order)
    → Holds 12 ring start q
    → length q + length draws ≤ 4096
    → (after : RingBuffer Order) × (synthetic_feed (suc fuel) idle i draws ring ≡ some after)
      × Holds 12 after start (q ++ drawn i draws)
unfolding synthetic_feed
with_room fuel i [] ring start q h room = (ring, refl, rw append-nil h)
with_room fuel i (d ∷ draws) ring start q h room =
    let o = drawn_order i d in
    let (pushed, held) = push-room o h (omega arith) in
    let (after, returns, holds) =
      with_room fuel (i + 1) draws (push ring_capacity o ring).1 start (q ++ (o ∷ [])) held
        (omega (arith, length-append q (o ∷ []))) in
    (
      after,
      synthetic_feed-pushed (suc fuel) idle i d draws ring (push ring_capacity o ring).1
            (push_when_room-pushed fuel o ring idle pushed)
          ∙ returns,
      subst (Holds 12 after start) (append_assoc q (o ∷ []) (drawn (i + 1) draws)) holds,
    )

without_room :
    (fuel : ℕ) (i : OrderId) (draws : List Draw) (ring : RingBuffer Order) (start : ℕ)
    (q : List Order)
    → Holds 12 ring start q
    → 4096 < length q + length draws
    → synthetic_feed fuel idle i draws ring ≡ none
unfolding synthetic_feed
without_room fuel i [] ring start q h more = absurd (omega (arith, h.fits))
without_room zero i (d ∷ draws) ring start q h more =
    synthetic_feed-waits 0 idle i d draws ring (push_when_room-none idle (drawn_order i d) ring)
without_room (suc fuel) i (d ∷ draws) ring start q h more =
    let o = drawn_order i d in
    elim (Bool-cases (ltb (length q) 4096)) [
      | inl room ↦
          let (pushed, held) = push-room o h (ground arith) in
          synthetic_feed-pushed (suc fuel) idle i d draws ring (push ring_capacity o ring).1
            (push_when_room-pushed fuel o ring idle pushed)
          ∙ without_room (suc fuel) (i + 1) draws (push ring_capacity o ring).1 start
              (q ++ (o ∷ [])) held (omega (arith, length-append q (o ∷ [])))
      | inr full ↦
          synthetic_feed-waits (suc fuel) idle i d draws ring
            (push_when_room-stuck (suc fuel) o ring start q h (ground arith))
    ]

-- With nobody taking from the ring, the feed ends if its orders fit behind what the ring holds, which
-- then holds them all in their order; otherwise it waits for ever.
pub synthetic_feed-alone :
    (i : OrderId) (draws : List Draw) (ring : RingBuffer Order) (start : ℕ) (q : List Order)
    → Holds 12 ring start q
    → (length q + length draws ≤ 4096
        → (fuel : ℕ)
        → (after : RingBuffer Order) × (synthetic_feed (suc fuel) idle i draws ring ≡ some after)
          × Holds 12 after start (q ++ drawn i draws))
      × (4096 < length q + length draws → (fuel : ℕ) → synthetic_feed fuel idle i draws ring ≡ none)
synthetic_feed-alone i draws ring start q h = (
  λ room fuel. with_room fuel i draws ring start q h room,
  λ more fuel. without_room fuel i draws ring start q h more,
)

length-drawn : (i : OrderId) (draws : List Draw) → length (drawn i draws) ≡ length draws
length-drawn i [] = refl
length-drawn i (d ∷ draws) = ap suc (length-drawn (i + 1) draws)

drop-suc : (m n : ℕ) (x : Order) (xs : List Order) → n ≡ suc m → drop m xs ≡ drop n (x ∷ xs)
drop-suc m n x xs e = rw e refl

lt_or_le : (a b : ℕ) → (a < b) ⊎ (b ≤ a)
lt_or_le a b = elim (Bool-cases (ltb a b)) [
  | inl less ↦ inl (ground arith)
  | inr more ↦ inr (ground arith)
]

-- With room the first attempt succeeds; on a full ring the second one does, in place of the oldest.
record Pushed (fuel : ℕ) (o : Order) (ring : RingBuffer Order) (q : List Order) : Type 0 where
  after : RingBuffer Order
  next : ℕ
  queue : List Order
  returns : push_when_room (suc (suc fuel)) take_one o ring ≡ some after
  held : Holds 12 after next queue
  last :
      (os : List Order)
      → drop (length queue + length os - 4096) (queue ++ os)
        ≡ drop (length q + suc (length os) - 4096) (q ++ (o ∷ os))

push_when_room-served :
    (fuel : ℕ) (o : Order) (ring : RingBuffer Order) (start : ℕ) (q : List Order)
    → Holds 12 ring start q
    → (length q < 4096) ⊎ (4096 ≤ length q)
    → Pushed fuel o ring q
unfolding Queue.pop
push_when_room-served fuel o ring start q h (inl room) =
    let (pushed, held) = push-room o h room in
    record {
      after = (push ring_capacity o ring).1;
      next = start;
      queue = q ++ (o ∷ []);
      returns = push_when_room-pushed (suc fuel) o ring take_one pushed;
      held = held;
      last = λ os. ap₂ drop (omega (arith, length-append q (o ∷ []))) (append_assoc q (o ∷ []) os);
    }
push_when_room-served fuel o ring start [] h (inr full) = absurd (omega (arith, full))
push_when_room-served fuel o ring start (x ∷ q) h (inr full) =
    let (refused, held) = push-full o h full in
    let ring1 = (push ring_capacity o ring).1 in
    let (_, (next, fewer)) = pop_refines held in
    let (pushed, holds) = push-room o fewer (omega (arith, h.fits)) in
    record {
      after = (push ring_capacity o (take_one ring1)).1;
      next = next;
      queue = q ++ (o ∷ []);
      returns =
          push_when_room-again (suc fuel) o ring take_one refused
          ∙ push_when_room-pushed fuel o (take_one ring1) take_one pushed;
      held = holds;
      last = λ os.
          ap₂ drop (omega (arith, length-append q (o ∷ []))) (append_assoc q (o ∷ []) os)
          ∙ drop-suc (length q + suc (length os) - 4096) (suc (length q) + suc (length os) - 4096) x
              (q ++ (o ∷ os)) (omega (arith, full));
    }

-- With a consumer that takes an order between two attempts, the feed always ends, after two attempts
-- for an order at most; the ring then holds the last 4096 of what it held and the feed's orders.
pub synthetic_feed-served :
    (draws : List Draw) (fuel : ℕ) (i : OrderId) (ring : RingBuffer Order) (start : ℕ)
    (q : List Order)
    → Holds 12 ring start q
    → (after : RingBuffer Order) × (next : ℕ) × (synthetic_feed
          (suc (suc fuel))
          take_one
          i
          draws
          ring
        ≡ some after)
      × Holds 12 after next (drop (length q + length draws - 4096) (q ++ drawn i draws))
unfolding synthetic_feed
synthetic_feed-served [] fuel i ring start q h =
    let none_gone : length q + 0 - 4096 ≡ 0 = omega (arith, h.fits) in
    (
      ring,
      start,
      refl,
      subst (Holds 12 ring start) (sym (ap (λ n. drop n (q ++ [])) none_gone ∙ append-nil q)) h,
    )
synthetic_feed-served (d ∷ draws) fuel i ring start q h =
    let p =
      push_when_room-served fuel (drawn_order i d) ring start q h (lt_or_le (length q) 4096) in
    let (after, next, returns, holds) =
      synthetic_feed-served draws fuel (i + 1) p.after p.next p.queue p.held in
    (
      after,
      next,
      synthetic_feed-pushed (suc (suc fuel)) take_one i d draws ring p.after p.returns ∙ returns,
      subst (Holds 12 after next)
          (ap (λ n. drop (length p.queue + n - 4096) (p.queue ++ drawn (i + 1) draws))
              (sym (length-drawn (i + 1) draws))
            ∙ p.last (drawn (i + 1) draws)
            ∙ ap
                (λ n. drop (length q + suc n - 4096) (q ++ (drawn_order i d ∷ drawn (i + 1) draws)))
                (length-drawn (i + 1) draws))
          holds,
    )
