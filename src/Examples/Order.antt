-- ===== src/Examples/Order.antt =====
-- Orders in the slots 3 and 5 on one level and on one side.
use low_latency_project.Prelude.{◌≡◌, refl, true, none, [], ◌∷◌, arith, IsDistinct}
use low_latency_project.Prelude.Int.{pos}
use low_latency_project.Core.Types.{buy}
use low_latency_project.Order.Record.{Heap}
use low_latency_project.Order.Level.{PriceLevel, empty_level, push_back, remove}
use low_latency_project.Order.Level.Queue.{IsQueue, OnlyLinks, push_back_lem}
use low_latency_project.Order.Level.Removal.{remove_lem}
use low_latency_project.Order.Book.{Levels, limit_order, insert_order}
use low_latency_project.Order.Shape.{Represents, IsSorted, order_of, entries}
use low_latency_project.Order.Insert.Place.{insert_entry, entry_of, insert_order-priority}

-- A bid at 10 in every slot.
abbrev bids : Heap
bids _ = limit_order 1 buy (pos 10) 5 0

empty-IsQueue : IsQueue bids empty_level []
empty-IsQueue = record { distinct = tt; links = (refl, refl); total = refl; count = refl }

abbrev one : Heap × PriceLevel
one = push_back 3 bids empty_level

one-IsQueue : IsQueue (one.0) (one.1) (3 ∷ [])
one-IsQueue = (push_back_lem bids 3 [] empty_level empty-IsQueue refl).0

abbrev two : Heap × PriceLevel
two = push_back 5 (one.0) (one.1)

push_back_lem_example :
    IsQueue (two.0) (two.1) (3 ∷ 5 ∷ [])
    × OnlyLinks (3 ∷ 5 ∷ []) (one.0) (two.0)
    × ((two.1).price ≡ (one.1).price)
push_back_lem_example = push_back_lem (one.0) 5 (3 ∷ []) (one.1) one-IsQueue refl

two-IsQueue : IsQueue (two.0) (two.1) (3 ∷ 5 ∷ [])
two-IsQueue = (push_back_lem (one.0) 5 (3 ∷ []) (one.1) one-IsQueue refl).0

abbrev left : Heap × PriceLevel
left = remove 3 (two.0) (two.1)

remove_lem_example :
    IsQueue (left.0) (left.1) (5 ∷ [])
    × OnlyLinks (3 ∷ 5 ∷ []) (two.0) (left.0)
    × ((left.0 3).prev ≡ none)
    × ((left.0 3).next ≡ none)
    × ((left.1).price ≡ (two.1).price)
remove_lem_example = remove_lem (two.0) 3 [] (5 ∷ []) (two.1) two-IsQueue

abbrev side : Heap × Levels
side = insert_order (order_of true) (pos 10) 3 bids []

insert_order-priority_example :
    Represents (side.0) true (side.1) ((pos 10, 3 ∷ []) ∷ [])
    × IsSorted (order_of true) ((pos 10, 3 ∷ []) ∷ [])
    × IsDistinct (3 ∷ [])
    × (entries (side.0) ((pos 10, 3 ∷ []) ∷ []) ≡ insert_entry true (entry_of bids (pos 10) 3) [])
insert_order-priority_example =
    insert_order-priority true (pos 10) bids 3 [] [] tt tt tt
      (record {
        at_price = refl;
        on_side = refl;
        filling = omega arith;
        fits = omega arith;
        alive = refl;
      })
      refl
