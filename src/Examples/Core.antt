-- ===== src/Examples/Core.antt =====
-- A pool of two slots and a ring of two places.
use Prim.Native.Nat.{bit_and}
use low_latency_project.Prelude.{
  ℕ, ◌^◌, ◌≡◌, ◌≢◌, ◌≤◌, ◌<◌, refl, none, some, List, [], ◌∷◌, ◌++◌, ◌==◌, ◌⊎◌, length,
  if◌then◌else◌, arith,
}
use low_latency_project.Core.Pool.{ObjectPool, new_pool, allocate, deallocate, used}
use low_latency_project.Core.Pool.Slots.{
  IsValid, new_pool-IsValid, Allocated, Released, allocate_lem, deallocate_lem, deallocate-allocate,
}
use low_latency_project.Core.Ring.{new_ring, push, size_sub, mask}
use low_latency_project.Core.Ring.Queue
use low_latency_project.Core.Ring.Window.{Holds}
use low_latency_project.Core.Ring.Refine.{
  Holds-new_ring, push_refines, run_refines, run, queue_run, Call, push_call, pop_call,
}
use low_latency_project.Core.Spsc.{
  has_room, has_item, System, Push, Pop, produce, consume, Reach, start, later,
}
use low_latency_project.Core.Spsc.Fifo.{fifo, no_race}

abbrev zeros : ℕ → ℕ
zeros _ = 0

abbrev pool : ObjectPool ℕ
pool = new_pool 2 zeros

-- The pool when its first slot is taken.
abbrev pool_used : ObjectPool ℕ
pool_used = record { storage = zeros; free_list = 0 ∷ 1 ∷ []; free_index = 1 }

new_pool-IsValid_example : IsValid 2 pool
new_pool-IsValid_example = new_pool-IsValid 2 zeros

allocate_lem_example :
    ((2 ≤ used pool) × (allocate 2 7 pool ≡ (none, pool)))
    ⊎ ((used pool < 2)
        × ((s : ℕ) × (q : ObjectPool ℕ) × (allocate 2 7 pool ≡ (some s, q))
            × Allocated 2 7 pool s q))
allocate_lem_example = allocate_lem 2 7 pool (new_pool-IsValid 2 zeros)

pool_used-IsValid : IsValid 2 pool_used
pool_used-IsValid = record {
  sized = refl;
  within = omega arith;
  distinct = (refl, tt);
  in_pool = (omega arith, tt);
}

deallocate_lem_example : Released 2 pool_used 0
unfolding used
deallocate_lem_example =
    deallocate_lem 2 pool_used 0 pool_used-IsValid (omega arith) (omega arith) refl

abbrev pool_seven : ObjectPool ℕ
pool_seven = record {
  storage = λ j. if j == 0 then 7 else 0;
  free_list = 0 ∷ 1 ∷ [];
  free_index = 1;
}

deallocate-allocate_example :
    ((deallocate (some 0) pool_seven).free_list ≡ pool.free_list)
    × (used (deallocate (some 0) pool_seven) ≡ used pool)
unfolding allocate
deallocate-allocate_example = deallocate-allocate 2 7 pool pool_seven 0 refl

ring-Holds : Holds 1 (new_ring zeros) 0 []
ring-Holds = Holds-new_ring 1 zeros (omega arith)

abbrev calls : List (Call ℕ)
calls = push_call 5 ∷ push_call 6 ∷ push_call 7 ∷ pop_call ∷ pop_call ∷ pop_call ∷ []

run_refines_example : run (2 ^ 1) (new_ring zeros) calls ≡ queue_run (2 ^ 1) [] calls
run_refines_example = run_refines calls ring-Holds

push_refines_example :
    ((push {T = ℕ} (2 ^ 1) 5 (new_ring zeros)).0 ≡ (Queue.push {T = ℕ} (2 ^ 1) 5 []).0)
    × Holds {T = ℕ} 1 (push (2 ^ 1) 5 (new_ring zeros)).1 0 (Queue.push (2 ^ 1) 5 []).1
push_refines_example = push_refines 5 ring-Holds

-- Both threads stand between their loads and their accesses of a slot.
abbrev both_inside : System ℕ
both_inside = record {
  ring = record { head = 0; tail = 1; buffer = λ j. if j == 0 then 5 else 0 };
  producer = has_room 6 1;
  consumer = has_item 0;
  sent = 5 ∷ [];
  received = [];
}

reached : Reach (2 ^ 1) zeros both_inside
unfolding new_ring
reached =
    later
      (later
        (later
          (later
            (later
              (later
                (later (later start (produce (Push.load_tail 5)))
                  (produce (Push.load_head (omega arith))))
                (produce Push.write_slot))
              (produce Push.store_tail))
            (produce (Push.load_tail 6)))
          (produce (Push.load_head (omega arith))))
        (consume Pop.load_head))
      (consume (Pop.load_tail (omega arith)))

fifo_example :
    (held : List ℕ) × (both_inside.sent ≡ both_inside.received ++ held)
    × (length held ≤ 2 ^ 1)
    × (size_sub both_inside.ring.tail both_inside.ring.head ≡ length held)
fifo_example = fifo 1 (omega arith) reached

no_race_example : bit_and 1 (mask (2 ^ 1)) ≢ bit_and 0 (mask (2 ^ 1))
no_race_example = no_race 1 (omega arith) reached refl refl
