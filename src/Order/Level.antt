-- ===== src/Order/Level.antt =====
-- include/order/price_level.hpp: `PriceLevel`, the intrusive doubly linked list of the orders at one
-- price. The links stand in the orders, so each operation returns the heap beside the level.
pub mod Links
pub mod Queue
pub mod Removal
use low_latency_project.Prelude.{
  ℕ, ◌+◌, ◌-◌, ◌%◌, ◌^◌, Bool, true, false, Option, none, some, update,
}
use low_latency_project.Prelude.Int.{ℤ, pos}
use low_latency_project.Core.Types.{Price}
use low_latency_project.Order.Record.{Order, Pointer, Heap, set_prev, set_next}

pub record PriceLevel : Type 0 where
  pub price : Price
  pub total_qty : ℕ  -- uint64_t
  pub order_count : ℕ  -- uint32_t
  pub head : Pointer
  pub tail : Pointer

-- `PriceLevel{}`, which `bids_[price]` makes at a new price.
abbrev pub empty_level : PriceLevel
empty_level = record { price = pos 0; total_qty = 0; order_count = 0; head = none; tail = none }

-- The first branch of `push_back`: `tail->next = o`, or `head = o`.
abbrev pub link_behind : Pointer → ℕ → Heap → PriceLevel → Heap × PriceLevel
link_behind (some t) o h l = (set_next h t (some o), l)
link_behind none o h l = (h, record l { head = some o })

unfoldable pub push_back : ℕ → Heap → PriceLevel → Heap × PriceLevel
push_back o h l =
    let cleared = set_next (set_prev h o l.tail) o none in
    let (h', l') = link_behind l.tail o cleared l in
    (
      h',
      record l' {
        tail = some o;
        total_qty = (l'.total_qty + (h' o).remaining_qty) % 2 ^ 64;
        order_count = (l'.order_count + 1) % 2 ^ 32;
      },
    )

-- `o->prev->next = o->next`, or `head = o->next`.
abbrev pub unlink_prev : Pointer → ℕ → Heap → PriceLevel → Heap × PriceLevel
unlink_prev (some p) o h l = (set_next h p (h o).next, l)
unlink_prev none o h l = (h, record l { head = (h o).next })

-- `o->next->prev = o->prev`, or `tail = o->prev`.
abbrev pub unlink_next : Pointer → ℕ → Heap → PriceLevel → Heap × PriceLevel
unlink_next (some n) o h l = (set_prev h n (h o).prev, l)
unlink_next none o h l = (h, record l { tail = (h o).prev })

unfoldable pub remove : ℕ → Heap → PriceLevel → Heap × PriceLevel
remove o h l =
    let (h1, l1) = unlink_prev (h o).prev o h l in
    let (h2, l2) = unlink_next (h1 o).next o h1 l1 in
    let h3 = set_next (set_prev h2 o none) o none in
    (
      h3,
      record l2 {
        total_qty = (l2.total_qty + 2 ^ 64 - (h3 o).remaining_qty % 2 ^ 64) % 2 ^ 64;
        order_count = (l2.order_count + 2 ^ 32 - 1) % 2 ^ 32;
      },
    )

unfoldable pub is_empty : PriceLevel → Bool
is_empty l = elim l.head [ none ↦ true | some _ ↦ false ]
