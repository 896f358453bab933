-- ===== src/Order/Shape.antt =====
-- The content of one side of the book, as the slots of its orders: for each price level, best price
-- first, the queue of its orders, oldest first.
pub mod Frame
use low_latency_project.Prelude.{
  if◌then◌else◌, ℕ, ◌+◌, ◌^◌, ◌<◌, ◌≡◌, Bool, true, false, ◌||◌, List, [], ◌∷◌, ◌++◌, length,
  contains, IsDistinct, Option, none, some,
}
use low_latency_project.Prelude.Int.{ℤ}
use low_latency_project.Core.Types.{OrderId, Price, Quantity, is_buy}
use low_latency_project.Order.Record.{Order, Heap}
use low_latency_project.Order.Level.{PriceLevel}
use low_latency_project.Order.Level.Queue.{IsQueue}
use low_latency_project.Order.Book.{Levels, greater, less, is_closed}

abbrev pub Shape : Type 0
Shape = List (Price × List ℕ)

abbrev pub slots : Shape → List ℕ
slots [] = []
slots ((k, ps) ∷ s) = ps ++ slots s

-- An order that rests on the bids (`bid` is true) or the asks, at the price `k`.
pub record Rests (h : Heap) (bid : Bool) (k : Price) (p : ℕ) : Type 0 where
  pub at_price : (h p).price ≡ k
  pub on_side : is_buy (h p).side ≡ bid
  pub filling : 0 < (h p).remaining_qty
  pub fits : (h p).remaining_qty < 2 ^ 64
  pub alive : is_closed (h p).state ≡ false

abbrev pub AllRest : Heap → Bool → Price → List ℕ → Type 0
AllRest h bid k [] = Unit {0}
AllRest h bid k (p ∷ ps) = Rests h bid k p × AllRest h bid k ps

-- One level: its key and its price field agree, it holds the orders of its queue, and is not empty.
pub record IsLevel (h : Heap) (bid : Bool) (key : Price) (l : PriceLevel) (k : Price) (ps : List ℕ)
    : Type 0 where
  pub keyed : key ≡ k
  pub priced : l.price ≡ k
  pub queue : IsQueue h l ps
  pub filled_in : 0 < length ps
  pub resting : AllRest h bid k ps

abbrev pub Represents : Heap → Bool → Levels → Shape → Type 0
Represents h bid [] [] = Unit {0}
Represents h bid [] (e ∷ s) = ⊥
Represents h bid (e ∷ m) [] = ⊥
Represents h bid ((key, l) ∷ m) ((k, ps) ∷ s) = IsLevel h bid key l k ps × Represents h bid m s

-- A resting order as the outside sees it.
pub record Entry : Type 0 where
  pub id : OrderId
  pub price : Price
  pub remaining : Quantity

-- The orders of a side in the order of their priority.
abbrev pub entries_at : Heap → Price → List ℕ → List Entry
entries_at h k [] = []
entries_at h k (p ∷ ps) =
    record { id = (h p).id; price = k; remaining = (h p).remaining_qty } ∷ entries_at h k ps

abbrev pub entries : Heap → Shape → List Entry
entries h [] = []
entries h ((k, ps) ∷ s) = entries_at h k ps ++ entries h s

-- The comparator of a side's map, and the order of the levels by it.
abbrev pub order_of : Bool → Price → Price → Bool
order_of bid = if bid then greater else less

abbrev pub AllBehind : (Price → Price → Bool) → Price → Shape → Type 0
AllBehind before k [] = Unit {0}
AllBehind before k ((j, ps) ∷ s) = (before k j ≡ true) × AllBehind before k s

abbrev pub IsSorted : (Price → Price → Bool) → Shape → Type 0
IsSorted before [] = Unit {0}
IsSorted before ((k, ps) ∷ s) = AllBehind before k s × IsSorted before s
