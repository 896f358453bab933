-- ===== src/Order/Modify.antt =====
-- src/order/order_book.cpp: `OrderBook::modify` on a book at rest.
use low_latency_project.Prelude.{
  ℕ, ◌^◌, ◌≡◌, ◌<◌, refl, ap, ◌∙◌, Bool, true, false, none, some, ◌++◌, contains, contains-append,
  IsDistinct-apart-left, arith, inl, inr, Bool-cases,
}
use low_latency_project.Prelude.Map.{lookup}
use low_latency_project.Core.Types.{OrderId, Quantity, Timestamp, is_buy}
use low_latency_project.Core.Pool.{used}
use low_latency_project.Order.Book.{OrderBook, heap, cancel, add, modify}
use low_latency_project.Order.Shape.{Shape, slots, Entry, entries}
use low_latency_project.Order.Invariant.{IsBook}
use low_latency_project.Order.Insert.Place.{insert_entry}
use low_latency_project.Order.Delete.{delete, rests_in}
use low_latency_project.Order.Delete.Place.{delete-missing}
use low_latency_project.Order.Cancel.{Cancelled, cancel_lem}
use low_latency_project.Order.Add.{Added, add_lem}
use low_latency_project.Engine.Matching.Turned.{choose}

pub record Modified (capacity : ℕ) (b : OrderBook) (bids asks : Shape) (s : Bool) (p : ℕ)
    (new : Entry) (r : Bool × OrderBook) : Type 0 where
  pub after : OrderBook
  pub new_bids : Shape
  pub new_asks : Shape
  pub returns : r ≡ (true, after)
  pub book : IsBook capacity after new_bids new_asks
  pub other_side :
      entries (heap after) (choose s new_bids new_asks) ≡ entries (heap b) (choose s bids asks)
  pub own_side :
      entries (heap after) (choose s new_asks new_bids)
      ≡ insert_entry s new (entries (heap b) (delete p (choose s asks bids)))

-- An id that is not listed is not modified.
modify-missing :
    (capacity : ℕ) (now : Timestamp) (id : OrderId) (qty : Quantity) (b : OrderBook)
    → lookup id b.order_map ≡ none
    → modify capacity now id qty b ≡ (false, b)
unfolding modify
modify-missing capacity now id qty b missing = ground arith

module _ (capacity : ℕ) (now : Timestamp) (id : OrderId) (qty : Quantity) (b : OrderBook)
    (bids asks : Shape) (ok : IsBook capacity b bids asks) (p : ℕ)
    (found : lookup id b.order_map ≡ some p) (positive : 0 < qty) (small : qty < 2 ^ 64) where
  abbrev s : Bool
  s = is_buy (heap b p).side

  inside : contains (slots bids ++ slots asks) p ≡ true
  inside = (ok.listed.sound id p found).0

  -- The order does not stand on the other side.
  other-missing : contains (slots (choose s bids asks)) p ≡ false
  other-missing = elim (Bool-cases (contains (slots bids) p)) [
    | inl here ↦
        let buys = (rests_in (heap b) true b.bids bids p ok.bids_side here).on_side in
        rw buys (IsDistinct-apart-left (slots bids) (slots asks) p ok.distinct here)
    | inr there ↦
        let on_asks : contains (slots asks) p ≡ true =
          ground (arith, inside, there, contains-append (slots bids) (slots asks) p) in
        let sells = (rests_in (heap b) false b.asks asks p ok.asks_side on_asks).on_side in
        rw sells there
  ]

  choose-delete :
      (t : Bool) (x y : Shape) → choose t (delete p x) (delete p y) ≡ delete p (choose t x y)
  choose-delete true x y = refl
  choose-delete false x y = refl

  module _ (c : Cancelled capacity b bids asks id p (cancel id b)) where
    choose-rest :
        (t : Bool)
        → entries (heap c.after) (choose t (delete p bids) (delete p asks))
          ≡ entries (heap b) (delete p (choose t bids asks))
    choose-rest true = c.asks_rest
    choose-rest false = c.bids_rest

    choose-rest_back :
        (t : Bool)
        → entries (heap c.after) (choose t (delete p asks) (delete p bids))
          ≡ entries (heap b) (delete p (choose t asks bids))
    choose-rest_back true = c.bids_rest
    choose-rest_back false = c.asks_rest

    pub added :
        Added capacity c.after
          (delete p bids)
          (delete p asks)
          s
          (record { id = id; price = (heap b p).price; remaining = qty })
          (add capacity now id (heap b p).side (heap b p).price qty c.after)
    unfolding used
    added =
        add_lem capacity now id (heap b p).side (heap b p).price qty c.after (delete p bids)
          (delete p asks) c.book c.gone positive small
          (omega (arith, c.freed, ok.accounts.valid.within))

    modify-is : modify capacity now id qty b ≡ (true, added.after)
    unfolding modify
    modify-is = ground (arith, found, c.returns, added.returns)

  -- `modify` of the id of a resting order, in a book at rest, to a quantity of 64 bits above 0 returns
  -- true and leaves a book at rest: the order is taken out and rests again at its price with the new
  -- quantity, behind all of a better or the same price, and the other side is as it was.
  pub modify_lem :
      Modified capacity b bids asks s p
        (record { id = id; price = (heap b p).price; remaining = qty })
        (modify capacity now id qty b)
  modify_lem =
      let c = cancel_lem capacity b bids asks ok id p found in
      let a = added c in
      record {
        after = a.after;
        new_bids = a.new_bids;
        new_asks = a.new_asks;
        returns = modify-is c;
        book = a.book;
        other_side =
            a.other_side
            ∙ choose-rest c s
            ∙ ap (entries (heap b)) (delete-missing p (choose s bids asks) other-missing);
        own_side = a.own_side ∙ ap (insert_entry s _) (choose-rest_back c s);
      }
