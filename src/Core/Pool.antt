-- ===== src/Core/Pool.antt =====
-- include/core/memory.hpp: `ObjectPool<T, Capacity>`, a fixed array of slots and a free list.
-- A pointer into the pool is the index of its slot, and `nullptr` is `none`. Slots
-- `free_list[free_index ..]` are free. Alignment and padding are not modelled.
pub mod Slots
use low_latency_project.Prelude.{
  ℕ, zero, suc, ◌+◌, ◌-◌, ◌≤◌, ◌<◌, ◌≡◌, Bool, true, false, Option, none, some, List, [], ◌∷◌, leb,
  ltb, if◌then◌else◌, length, get_elem?, set, update, drop, contains,
}

pub record ObjectPool (T : Type 0) : Type 0 where
  pub storage : ℕ → T
  pub free_list : List ℕ
  pub free_index : ℕ

-- `count` slots from `first` on, in the order of the constructor's loop.
abbrev pub slots_from : ℕ → ℕ → List ℕ
slots_from zero first = []
slots_from (suc count) first = first ∷ slots_from count (suc first)

module _ {T : Type 0} (capacity : ℕ) where
  abbrev pub new_pool : (ℕ → T) → ObjectPool T
  new_pool bytes = record { storage = bytes; free_list = slots_from capacity 0; free_index = 0 }

  -- The new object is constructed in place with the value `v`. `none` is `nullptr`. A read behind the
  -- free list is undefined, and gives a pointer outside the pool here.
  unfoldable pub allocate : T → ObjectPool T → Option ℕ × ObjectPool T
  allocate v p =
      if leb capacity p.free_index then (none, p) else elim (get_elem? p.free_list p.free_index) [
        | none ↦ (some capacity, record p { free_index = p.free_index + 1 })
        | some slot ↦ (
          some slot,
          record p { storage = update p.storage slot v; free_index = p.free_index + 1 },
        )
      ]

  unfoldable pub available : ObjectPool T → ℕ
  available p = capacity - p.free_index

module _ {T : Type 0} where
  -- The destructor of `T` is trivial: the slot keeps its bytes.
  unfoldable pub deallocate : Option ℕ → ObjectPool T → ObjectPool T
  deallocate none p = p
  deallocate (some slot) p =
      if ltb 0 p.free_index
      then record p {
        free_list = set p.free_list (p.free_index - 1) slot;
        free_index = p.free_index - 1;
      }
      else p

  unfoldable pub used : ObjectPool T → ℕ
  used p = p.free_index
