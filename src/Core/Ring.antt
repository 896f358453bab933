-- ===== src/Core/Ring.antt =====
-- include/core/ring_buffer.hpp: `RingBuffer<T, Capacity>`, the single-producer single-consumer ring.
-- `push` and `pop` as whole calls; `Core.Spsc` takes them apart into their shared accesses.
pub mod Queue
pub mod Refine
pub mod Window
use Prim.Native.Nat.{bit_and}
use low_latency_project.Prelude.{
  ℕ, ◌+◌, ◌-◌, ◌%◌, ◌^◌, Bool, true, false, Option, none, some, ltb, ◌==◌, if◌then◌else◌, update,
}

-- `head_` and `tail_` are `std::size_t` counters that wrap at 2 ^ 64.
pub record RingBuffer (T : Type 0) : Type 0 where
  pub head : ℕ
  pub tail : ℕ
  pub buffer : ℕ → T

abbrev pub size_add : ℕ → ℕ → ℕ
size_add a b = (a + b) % 2 ^ 64

abbrev pub size_sub : ℕ → ℕ → ℕ
size_sub a b = (a + 2 ^ 64 - b) % 2 ^ 64

module _ {T : Type 0} where
  unfoldable pub new_ring : (ℕ → T) → RingBuffer T
  new_ring bytes = record { head = 0; tail = 0; buffer = bytes }

  -- Returns the current number of elements.
  unfoldable pub size : RingBuffer T → ℕ
  size r = size_sub r.tail r.head

  unfoldable pub empty : RingBuffer T → Bool
  unfolding size
  empty r = size r == 0

-- `kMask`
abbrev pub mask : ℕ → ℕ
mask capacity = capacity - 1

module _ {T : Type 0} (capacity : ℕ) where
  unfoldable pub push : T → RingBuffer T → Bool × RingBuffer T
  push item r =
      let current_tail = r.tail in
      let next_tail = size_add current_tail 1 in
      if ltb capacity (size_sub next_tail r.head) then (false, r) else (
        true,
        record r {
          buffer = update r.buffer (bit_and current_tail (mask capacity)) item;
          tail = next_tail;
        },
      )

  -- The option is what goes out through `item`; `none` is the result `false`.
  unfoldable pub pop : RingBuffer T → Option T × RingBuffer T
  pop r =
      let current_head = r.head in
      if current_head == r.tail then (none, r) else (
        some (r.buffer (bit_and current_head (mask capacity))),
        record r { head = size_add current_head 1 },
      )
