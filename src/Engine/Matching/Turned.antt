-- ===== src/Engine/Matching/Turned.antt =====
-- The book at rest as the matching of one side sees it: the side that is hit, and the far side.
use low_latency_project.Prelude.{
  ℕ, ◌≡◌, refl, Bool, true, false, not, List, [], ◌∷◌, ◌++◌, arith, if◌then◌else◌, length,
  length-append, contains, contains-append, IsDistinct, IsDistinct-left, IsDistinct-middle,
}
use low_latency_project.Order.Book.{OrderBook, Levels, heap, refresh_best}
use low_latency_project.Order.Shape.{Shape, slots, Represents, IsSorted, order_of}
use low_latency_project.Order.Accounts.{Accounts, Accounts-reorder}
use low_latency_project.Order.Listed.{Listed, Listed-reorder}
use low_latency_project.Order.Invariant.{IsBook}
use low_latency_project.Engine.Matching.{hit_levels, set_hit_levels}

pub record Turned (capacity : ℕ) (hits_asks : Bool) (hit far : Shape) (b : OrderBook) : Type 0 where
  pub hit_side : Represents (heap b) (not hits_asks) (hit_levels hits_asks b) hit
  pub far_side : Represents (heap b) hits_asks (hit_levels (not hits_asks) b) far
  pub hit_sorted : IsSorted (order_of (not hits_asks)) hit
  pub far_sorted : IsSorted (order_of hits_asks) far
  pub distinct : IsDistinct (slots hit ++ slots far)
  pub accounts : Accounts capacity b.pool (slots hit ++ slots far)
  pub listed : Listed b.order_map (heap b) (slots hit ++ slots far)

-- Of the two sides of the book, the one that an order hits.
abbrev pub choose : {A : Type 0} → Bool → A → A → A
choose hits_asks bids asks = if hits_asks then asks else bids

contains-swap : (xs ys : List ℕ) (q : ℕ) → contains (ys ++ xs) q ≡ contains (xs ++ ys) q
contains-swap xs ys q = ground (arith, contains-append xs ys q, contains-append ys xs q)

length-swap : (xs ys : List ℕ) → length (ys ++ xs) ≡ length (xs ++ ys)
length-swap xs ys = omega (arith, length-append xs ys, length-append ys xs)

IsDistinct-swap : (xs ys : List ℕ) → IsDistinct (xs ++ ys) → IsDistinct (ys ++ xs)
IsDistinct-swap xs [] d = IsDistinct-left xs [] d
IsDistinct-swap xs (y ∷ ys) d =
    let m = IsDistinct-middle xs y ys d in
    (ground (arith, contains-append ys xs y, m.1, m.2), IsDistinct-swap xs ys m.0)

pub turn :
    (capacity : ℕ) (hits_asks : Bool) (b : OrderBook) (bids asks : Shape)
    → IsBook capacity b bids asks
    → Turned capacity hits_asks (choose hits_asks bids asks) (choose hits_asks asks bids) b
turn capacity false b bids asks ok = record {
  hit_side = ok.bids_side;
  far_side = ok.asks_side;
  hit_sorted = ok.bids_sorted;
  far_sorted = ok.asks_sorted;
  distinct = ok.distinct;
  accounts = ok.accounts;
  listed = ok.listed;
}
turn capacity true b bids asks ok = record {
  hit_side = ok.asks_side;
  far_side = ok.bids_side;
  hit_sorted = ok.asks_sorted;
  far_sorted = ok.bids_sorted;
  distinct = IsDistinct-swap (slots bids) (slots asks) ok.distinct;
  accounts =
      Accounts-reorder (slots bids ++ slots asks) (slots asks ++ slots bids)
        (contains-swap (slots bids) (slots asks)) (length-swap (slots bids) (slots asks))
        ok.accounts;
  listed =
      Listed-reorder b.order_map (heap b) (slots bids ++ slots asks) (slots asks ++ slots bids)
        (contains-swap (slots bids) (slots asks)) (length-swap (slots bids) (slots asks)) ok.listed;
}

pub turn_back :
    (capacity : ℕ) (hits_asks : Bool) (b : OrderBook) (hit far : Shape)
    → Turned capacity hits_asks hit far b
    → IsBook capacity (refresh_best b) (choose hits_asks hit far) (choose hits_asks far hit)
unfolding refresh_best
turn_back capacity false b bids asks t = record {
  bids_side = t.hit_side;
  asks_side = t.far_side;
  bids_sorted = t.hit_sorted;
  asks_sorted = t.far_sorted;
  distinct = t.distinct;
  accounts = t.accounts;
  listed = t.listed;
  best_bid = refl;
  best_ask = refl;
}
turn_back capacity true b asks bids t = record {
  bids_side = t.far_side;
  asks_side = t.hit_side;
  bids_sorted = t.far_sorted;
  asks_sorted = t.hit_sorted;
  distinct = IsDistinct-swap (slots asks) (slots bids) t.distinct;
  accounts =
      Accounts-reorder (slots asks ++ slots bids) (slots bids ++ slots asks)
        (contains-swap (slots asks) (slots bids)) (length-swap (slots asks) (slots bids))
        t.accounts;
  listed =
      Listed-reorder b.order_map (heap b) (slots asks ++ slots bids) (slots bids ++ slots asks)
        (contains-swap (slots asks) (slots bids)) (length-swap (slots asks) (slots bids)) t.listed;
  best_bid = refl;
  best_ask = refl;
}

-- The same from the levels that are written back on the far side.
pub Turned-set_far :
    (capacity : ℕ) (hits_asks : Bool) (hit far : Shape) (m : Levels) (b : OrderBook)
    → Represents (heap b) (not hits_asks) (hit_levels hits_asks b) hit
    → Represents (heap b) hits_asks m far
    → IsSorted (order_of (not hits_asks)) hit
    → IsSorted (order_of hits_asks) far
    → IsDistinct (slots hit ++ slots far)
    → Accounts capacity b.pool (slots hit ++ slots far)
    → Listed b.order_map (heap b) (slots hit ++ slots far)
    → Turned capacity hits_asks hit far (set_hit_levels (not hits_asks) m b)
Turned-set_far capacity true hit far m b r t rs ts d acc l = record {
  hit_side = r;
  far_side = t;
  hit_sorted = rs;
  far_sorted = ts;
  distinct = d;
  accounts = acc;
  listed = l;
}
Turned-set_far capacity false hit far m b r t rs ts d acc l = record {
  hit_side = r;
  far_side = t;
  hit_sorted = rs;
  far_sorted = ts;
  distinct = d;
  accounts = acc;
  listed = l;
}
