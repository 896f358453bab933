-- ===== src/Order/Unlist.antt =====
-- What `OrderBook::cancel` does to the side on which the order rests.
use low_latency_project.Prelude.{
  ℕ, ◌≡◌, refl, sym, ap, ◌∙◌, true, false, List, ◌∷◌, ◌++◌, contains, arith, ◌==◌, contains-append,
  some, Bool-cases, inl, inr, IsDistinct-apart, IsDistinct-apart-left, IsDistinct-left,
  IsDistinct-right, apart_of_contains,
}
use mathlib.Core.Path.{ap₂}
use mathlib.Core.List.{append_assoc}
use low_latency_project.Prelude.Map.{lookup, remove_key}
use low_latency_project.Core.Types.{OrderId}
use low_latency_project.Core.Pool.{deallocate}
use low_latency_project.Order.Record.{Order, Heap, set_state, cancelled}
use low_latency_project.Order.Level.Queue.{payload}
use low_latency_project.Order.Book.{
  OrderBook, Levels, heap, set_heap, unlist, remove_order, cancel, refresh_best, greater, less,
  is_closed,
}
use low_latency_project.Order.Shape.{Shape, slots, Represents}
use low_latency_project.Order.Shape.Frame.{Represents-frame}
use low_latency_project.Order.Invariant.{IsBook}
use low_latency_project.Order.Delete.{delete, rests_in}
use low_latency_project.Order.Delete.Place.{slots_split, delete-missing, remove_order_lem}

-- What is left when the order `p` has left its side: the heap `g` and the two maps.
pub record Unlisted (h : Heap) (b : OrderBook) (p : ℕ) (bids asks : Shape) (r : OrderBook)
    : Type 0 where
  pub g : Heap
  pub new_bids : Levels
  pub new_asks : Levels
  pub result : r ≡ record (set_heap b g) { bids = new_bids; asks = new_asks }
  pub bids_side : Represents g true new_bids (delete p bids)
  pub asks_side : Represents g false new_asks (delete p asks)
  pub payloads : (q : ℕ) → payload (g q) ≡ payload (set_state h p cancelled q)

module _ (capacity : ℕ) (b : OrderBook) (bids asks : Shape) (ok : IsBook capacity b bids asks)
    (p : ℕ) where
  abbrev pub closed : Heap
  closed = set_state (heap b) p cancelled

  others : (q : ℕ) → (q == p) ≡ false → closed q ≡ heap b q
  others q apart = rw apart

  in_bids :
      contains (slots bids) p ≡ true
      → Unlisted
          (heap b)
          b
          p
          bids
          asks
          (unlist (heap b p).side (heap b p).price p (set_heap b closed))
  unfolding unlist
  in_bids i =
      let buys = (rests_in (heap b) true b.bids bids p ok.bids_side i).on_side in
      let gone =
        remove_order_lem true (heap b p).price p (heap b) b.bids bids ok.bids_side ok.bids_sorted
          (IsDistinct-left (slots bids) (slots asks) ok.distinct) i refl in
      let out : contains (slots asks) p ≡ false =
        IsDistinct-apart-left (slots bids) (slots asks) p ok.distinct i in
      let r = remove_order greater (heap b p).price p closed b.bids in
      record {
        g = r.0;
        new_bids = r.1;
        new_asks = b.asks;
        result = rw buys refl;
        bids_side = gone.0;
        asks_side = rw (delete-missing p asks out) (
            Represents-frame (heap b) (r.0) false b.asks asks
              (λ q j.
                gone.1.outside q (IsDistinct-apart (slots bids) (slots asks) q ok.distinct j)
                ∙ others q (apart_of_contains (slots asks) p q out j).1)
              ok.asks_side);
        payloads = gone.1.payloads;
      }

  in_asks :
      contains (slots asks) p ≡ true
      → Unlisted
          (heap b)
          b
          p
          bids
          asks
          (unlist (heap b p).side (heap b p).price p (set_heap b closed))
  unfolding unlist
  in_asks i =
      let sells = (rests_in (heap b) false b.asks asks p ok.asks_side i).on_side in
      let gone =
        remove_order_lem false (heap b p).price p (heap b) b.asks asks ok.asks_side ok.asks_sorted
          (IsDistinct-right (slots bids) (slots asks) ok.distinct) i refl in
      let out : contains (slots bids) p ≡ false =
        IsDistinct-apart (slots bids) (slots asks) p ok.distinct i in
      let r = remove_order less (heap b p).price p closed b.asks in
      record {
        g = r.0;
        new_bids = b.bids;
        new_asks = r.1;
        result = rw sells refl;
        bids_side = rw (delete-missing p bids out) (
            Represents-frame (heap b) (r.0) true b.bids bids
              (λ q j.
                gone.1.outside q (IsDistinct-apart-left (slots bids) (slots asks) q ok.distinct j)
                ∙ others q (apart_of_contains (slots bids) p q out j).1)
              ok.bids_side);
        asks_side = gone.0;
        payloads = gone.1.payloads;
      }

  -- All slots in front of the order and behind it.
  pub all_split :
      contains (slots bids ++ slots asks) p ≡ true
      → (xs ys : List ℕ) × (slots bids ++ slots asks ≡ xs ++ (p ∷ ys))
        × (slots (delete p bids) ++ slots (delete p asks) ≡ xs ++ ys)
  all_split i = elim (Bool-cases (contains (slots bids) p)) [
    | inl here ↦
        let (xs, ys, e, f) = slots_split p bids here in
        let out : contains (slots asks) p ≡ false =
          IsDistinct-apart-left (slots bids) (slots asks) p ok.distinct here in
        (
          xs,
          ys ++ slots asks,
          ap (λ zs. zs ++ slots asks) e ∙ append_assoc xs (p ∷ ys) (slots asks),
          ap₂ ◌++◌ f (ap slots (delete-missing p asks out)) ∙ append_assoc xs ys (slots asks),
        )
    | inr there ↦
        let in_there : contains (slots asks) p ≡ true =
          ground (arith, i, there, contains-append (slots bids) (slots asks) p) in
        let (xs, ys, e, f) = slots_split p asks in_there in
        (
          slots bids ++ xs,
          ys,
          ap (λ zs. slots bids ++ zs) e ∙ sym (append_assoc (slots bids) xs (p ∷ ys)),
          ap₂ ◌++◌ (ap slots (delete-missing p bids there)) f
              ∙ sym (append_assoc (slots bids) xs ys),
        )
  ]

  pub unlisted :
      contains (slots bids ++ slots asks) p ≡ true
      → Unlisted
          (heap b)
          b
          p
          bids
          asks
          (unlist (heap b p).side (heap b p).price p (set_heap b closed))
  unlisted i = elim (Bool-cases (contains (slots bids) p)) [
    | inl here ↦ in_bids here
    | inr there ↦ in_asks (ground (arith, i, there, contains-append (slots bids) (slots asks) p))
  ]

  pub alive : contains (slots bids ++ slots asks) p ≡ true → is_closed (heap b p).state ≡ false
  alive i = elim (Bool-cases (contains (slots bids) p)) [
    | inl here ↦ (rests_in (heap b) true b.bids bids p ok.bids_side here).alive
    | inr there ↦
        (rests_in (heap b) false b.asks asks p ok.asks_side
          (ground (arith, i, there, contains-append (slots bids) (slots asks) p))).alive
  ]

  -- The book that `cancel` makes of the book without the order.
  abbrev pub forget : OrderId → OrderBook → OrderBook
  forget id b2 = record b2 {
    order_map = remove_key id b2.order_map;
    pool = deallocate (some p) b2.pool;
  }

  pub cancel-found :
      (id : OrderId)
      → lookup id b.order_map ≡ some p
      → is_closed (heap b p).state ≡ false
      → cancel id b ≡ (
        true,
        refresh_best (forget id (unlist (closed p).side (closed p).price p (set_heap b closed))),
      )
  unfolding cancel
  cancel-found id found open_state = ground arith

  pub ids :
      (g : Heap)
      → ((q : ℕ) → payload (g q) ≡ payload (closed q))
      → (q : ℕ) → (g q).id ≡ (heap b q).id
  ids g same q =
      let written : (closed q).id ≡ (heap b q).id = ground arith in
      ap (λ (o : Order). o.id) (same q) ∙ written
