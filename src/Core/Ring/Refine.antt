-- ===== src/Core/Ring/Refine.antt =====
-- Whole calls of `RingBuffer`: they are the calls of the bounded queue that the ring holds.
use Prim.Native.Nat.{bit_and}
use mathlib.Core.Path.{ap₂}
use low_latency_project.Prelude.{
  ℕ, suc, ◌+◌, ◌^◌, ◌≤◌, ◌≡◌, refl, ap, ◌∙◌, Bool, false, Option, some, List, [], ◌∷◌, arith, ltb,
  ◌==◌, length, Bool-cases, inl, inr, ==_self, ltb→lt, ltb→le, lt→ltb, le→ltb,
}
use low_latency_project.Core.Ring.{
  RingBuffer, new_ring, push, pop, size, empty, size_sub, size_add, mask,
}
use low_latency_project.Core.Ring.Queue
use low_latency_project.Core.Ring.Window.{
  Holds, size_is, next_size_is, capacity_bounds, Holds-write, Holds-advance_tail, Holds-front,
  Holds-advance_head,
}

-- A new ring is the empty queue.
pub Holds-new_ring : {T : Type 0} (k : ℕ) (bytes : ℕ → T) → k ≤ 63 → Holds k (new_ring bytes) 0 []
unfolding new_ring
Holds-new_ring k bytes small = record {
  small = small;
  head_is = refl;
  tail_is = refl;
  fits = omega arith;
  stored = λ i x e. cc;
}

module _ {T : Type 0} {k : ℕ} {r : RingBuffer T} {start : ℕ} where
  -- The test of `push` asks whether the queue is full.
  pub full_test :
      {xs : List T}
      → Holds k r start xs
      → ltb (2 ^ k) (size_sub (size_add r.tail 1) r.head) ≡ (ltb (2 ^ k) (length xs + 1))
  full_test h = ap (ltb (2 ^ k)) (next_size_is h)

  -- The test of `pop` asks whether the queue is empty.
  pub empty_test : {xs : List T} → Holds k r start xs → (r.head == r.tail) ≡ (length xs == 0)
  empty_test {xs} h = ground (
    arith,
    h.head_is,
    h.tail_is,
    h.fits,
    (capacity_bounds h.small).0,
    (capacity_bounds h.small).1,
  )

  -- `push` answers as the bounded queue does, and leaves the ring holding the queue's result: an item
  -- is refused, with the ring unchanged, exactly when `2 ^ k` items are held. This is so whatever
  -- the counters are, the wrap at 2 ^ 64 included.
  pub push_refines :
      {xs : List T} (x : T)
      → Holds k r start xs
      → ((push (2 ^ k) x r).0 ≡ (Queue.push (2 ^ k) x xs).0)
        × Holds k (push (2 ^ k) x r).1 start (Queue.push (2 ^ k) x xs).1
  unfolding push Queue.push
  push_refines {xs} x h = elim (Bool-cases (ltb (length xs) (2 ^ k))) [
    | inl room ↦
        let lt = ltb→lt (length xs) (2 ^ k) room in
        let test = full_test h ∙ le→ltb (2 ^ k) (length xs + 1) (omega arith) in
        rw (test, room)
          (
            refl,
            Holds-advance_tail x (Holds-write x h lt) lt
                (rw (==_self (bit_and r.tail (mask (2 ^ k))))),
          )
    | inr full ↦
        let le = ltb→le (length xs) (2 ^ k) full in
        let test = full_test h ∙ lt→ltb (2 ^ k) (length xs + 1) (omega arith) in
        rw (test, full) (refl, h)
  ]

  -- `pop` answers as the queue does: the oldest item and the rest, or nothing, with the ring
  -- unchanged, exactly when no item is held.
  pub pop_refines :
      {xs : List T}
      → Holds k r start xs
      → ((pop (2 ^ k) r).0 ≡ (Queue.pop xs).0)
        × ((next : ℕ) × Holds k (pop (2 ^ k) r).1 next (Queue.pop xs).1)
  unfolding pop Queue.pop
  pop_refines {xs = []} h = rw (empty_test h) (refl, (start, h))
  pop_refines {xs = x ∷ xs} h =
      let some_held : (suc (length xs) == 0) ≡ false = ground arith in
      rw (empty_test h ∙ some_held) (ap some (Holds-front h), (start + 1, Holds-advance_head h))

  -- `size` counts the items and `empty` asks whether there are none.
  pub size_lem :
      {xs : List T} → Holds k r start xs → (size r ≡ length xs) × (empty r ≡ (length xs == 0))
  unfolding size empty
  size_lem h = (size_is h, ap (λ n. n == 0) (size_is h))

-- A client's calls in order, and what it sees of each.
pub data Call (T : Type 0) : Type 0 where
  push_call : T → Call T
  pop_call : Call T

pub data Reply (T : Type 0) : Type 0 where
  pushed : Bool → Reply T
  popped : Option T → Reply T

module _ {T : Type 0} (capacity : ℕ) where
  pub run : RingBuffer T → List (Call T) → List (Reply T)
  run r [] = []
  run r (push_call x ∷ calls) = let (ok, r') = push capacity x r in pushed ok ∷ run r' calls
  run r (pop_call ∷ calls) = let (out, r') = pop capacity r in popped out ∷ run r' calls

  pub queue_run : List T → List (Call T) → List (Reply T)
  queue_run q [] = []
  queue_run q (push_call x ∷ calls) =
      let (ok, q') = Queue.push capacity x q in pushed ok ∷ queue_run q' calls
  queue_run q (pop_call ∷ calls) = let (out, q') = Queue.pop q in popped out ∷ queue_run q' calls

-- No sequence of calls tells a ring from the bounded queue that it holds.
pub run_refines :
    {T : Type 0} {k : ℕ} (calls : List (Call T)) {r : RingBuffer T} {start : ℕ} {xs : List T}
    → Holds k r start xs
    → run (2 ^ k) r calls ≡ queue_run (2 ^ k) xs calls
unfolding run queue_run
run_refines [] h = refl
run_refines (push_call x ∷ calls) h =
    let (answer, held) = push_refines x h in ap₂ ◌∷◌ (ap pushed answer) (run_refines calls held)
run_refines (pop_call ∷ calls) h =
    let (answer, held) = pop_refines h in ap₂ ◌∷◌ (ap popped answer) (run_refines calls held.1)
