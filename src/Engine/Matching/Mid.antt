-- ===== src/Engine/Matching/Mid.antt =====
-- The book in the middle of a match: the aggressive order `a` stands in the pool and in no level.
use low_latency_project.Prelude.{
  ℕ, ◌^◌, ◌≡◌, ◌<◌, refl, Bool, true, false, not, none, ◌∷◌, ◌++◌, IsDistinct,
}
use low_latency_project.Prelude.Map.{Entries, lookup}
use low_latency_project.Core.Types.{OrderId}
use low_latency_project.Core.Pool.{ObjectPool}
use low_latency_project.Order.Record.{Order, Heap}
use low_latency_project.Order.Book.{OrderBook, Levels, heap, set_heap}
use low_latency_project.Order.Shape.{Shape, slots, Represents, IsSorted, order_of}
use low_latency_project.Order.Accounts.{Accounts}
use low_latency_project.Order.Listed.{Listed}
use low_latency_project.Engine.Matching.{hit_levels, set_hit_levels}

-- `hit` is the content of the side that the order hits, `far` of the side that it would rest on.
pub record Mid (capacity : ℕ) (hits_asks : Bool) (a : ℕ) (hit far : Shape) (b : OrderBook)
    : Type 0 where
  pub hit_side : Represents (heap b) (not hits_asks) (hit_levels hits_asks b) hit
  pub far_side : Represents (heap b) hits_asks (hit_levels (not hits_asks) b) far
  pub hit_sorted : IsSorted (order_of (not hits_asks)) hit
  pub far_sorted : IsSorted (order_of hits_asks) far
  pub distinct : IsDistinct (a ∷ (slots hit ++ slots far))
  pub accounts : Accounts capacity b.pool (a ∷ (slots hit ++ slots far))
  pub listed : Listed b.order_map (heap b) (slots hit ++ slots far)
  pub small : (heap b a).remaining_qty < 2 ^ 64
  pub fresh : lookup (heap b a).id b.order_map ≡ none

-- The same from the levels that are written back.
pub Mid-set :
    (capacity : ℕ) (hits_asks : Bool) (a : ℕ) (hit far : Shape) (m : Levels) (b : OrderBook)
    → Represents (heap b) (not hits_asks) m hit
    → Represents (heap b) hits_asks (hit_levels (not hits_asks) b) far
    → IsSorted (order_of (not hits_asks)) hit
    → IsSorted (order_of hits_asks) far
    → IsDistinct (a ∷ (slots hit ++ slots far))
    → Accounts capacity b.pool (a ∷ (slots hit ++ slots far))
    → Listed b.order_map (heap b) (slots hit ++ slots far)
    → (heap b a).remaining_qty < 2 ^ 64
    → lookup (heap b a).id b.order_map ≡ none
    → Mid capacity hits_asks a hit far (set_hit_levels hits_asks m b)
Mid-set capacity true a hit far m b r t rs ts d acc l small fresh = record {
  hit_side = r;
  far_side = t;
  hit_sorted = rs;
  far_sorted = ts;
  distinct = d;
  accounts = acc;
  listed = l;
  small = small;
  fresh = fresh;
}
Mid-set capacity false a hit far m b r t rs ts d acc l small fresh = record {
  hit_side = r;
  far_side = t;
  hit_sorted = rs;
  far_sorted = ts;
  distinct = d;
  accounts = acc;
  listed = l;
  small = small;
  fresh = fresh;
}

pub hit_levels-set_heap :
    (side : Bool) (h : Heap) (b : OrderBook) → hit_levels side (set_heap b h) ≡ hit_levels side b
hit_levels-set_heap true h b = refl
hit_levels-set_heap false h b = refl

-- The levels do not depend on the pool and the map.
pub hit_levels-set_pool :
    (side : Bool) (m : Entries OrderId ℕ) (pool : ObjectPool Order) (b : OrderBook)
    → hit_levels side (record b { order_map = m; pool = pool }) ≡ hit_levels side b
hit_levels-set_pool true m pool b = refl
hit_levels-set_pool false m pool b = refl

pub heap-set_hit_levels :
    (side : Bool) (m : Levels) (b : OrderBook) → heap (set_hit_levels side m b) ≡ heap b
heap-set_hit_levels true m b = refl
heap-set_hit_levels false m b = refl

pub hit_levels-set_map :
    (side : Bool) (m : Entries OrderId ℕ) (h : Heap) (b : OrderBook)
    → hit_levels side (record (set_heap b h) { order_map = m }) ≡ hit_levels side b
hit_levels-set_map true m h b = refl
hit_levels-set_map false m h b = refl

pub hit_levels-set_only_pool :
    (side : Bool) (pool : ObjectPool Order) (b : OrderBook)
    → hit_levels side (record b { pool = pool }) ≡ hit_levels side b
hit_levels-set_only_pool true pool b = refl
hit_levels-set_only_pool false pool b = refl
