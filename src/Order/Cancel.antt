-- ===== src/Order/Cancel.antt =====
-- `OrderBook::cancel` on a book at rest.
use low_latency_project.Prelude.{
  ℕ, suc, ◌≡◌, refl, sym, ap, ◌∙◌, Bool, true, false, List, [], ◌∷◌, ◌++◌, length, contains, arith,
  contains-append, length-append, ==_self, none, some, IsDistinct-middle,
}
use mathlib.Core.Path.{ap₂}
use low_latency_project.Prelude.Map.{lookup, remove_key}
use low_latency_project.Core.Types.{OrderId, Price}
use low_latency_project.Core.Pool.{used}
use low_latency_project.Core.Pool.Slots.{storage-deallocate}
use low_latency_project.Order.Record.{Order, Heap, set_state, cancelled}
use low_latency_project.Order.Book.{
  OrderBook, heap, set_heap, unlist, cancel, refresh_best, greater, less,
}
use low_latency_project.Order.Shape.{Shape, slots, Entry, entries, entries_at}
use low_latency_project.Order.Accounts.{Accounts-storage, Accounts-reorder, Accounts-release}
use low_latency_project.Order.Listed.{Listed-remove, Listed-reorder, lookup-removed, lookup-gone}
use low_latency_project.Order.Insert.Place.{entries-payload}
use low_latency_project.Order.Invariant.{IsBook}
use low_latency_project.Order.Delete.{delete}
use low_latency_project.Order.Delete.Place.{IsSorted-delete}
use low_latency_project.Order.Unlist.{
  closed, all_split, unlisted, alive, forget, cancel-found, ids, Unlisted,
}

-- A cancelled order is out of the book `after`, and all other orders are as they were.
pub record Cancelled (capacity : ℕ) (b : OrderBook) (bids asks : Shape) (id : OrderId) (p : ℕ)
    (r : Bool × OrderBook) : Type 0 where
  pub after : OrderBook
  pub returns : r ≡ (true, after)
  pub book : IsBook capacity after (delete p bids) (delete p asks)
  pub bids_rest : entries (heap after) (delete p bids) ≡ entries (heap b) (delete p bids)
  pub asks_rest : entries (heap after) (delete p asks) ≡ entries (heap b) (delete p asks)
  pub gone : lookup id after.order_map ≡ none
  pub unlisted : (j : OrderId) → lookup j b.order_map ≡ none → lookup j after.order_map ≡ none
  pub freed : suc (used after.pool) ≡ used b.pool

entries_at-state :
    (h : Heap) (p : ℕ) (k : Price) (ps : List ℕ)
    → entries_at (set_state h p cancelled) k ps ≡ entries_at h k ps
entries_at-state h p k [] = refl
entries_at-state h p k (q ∷ qs) =
    let same_id : (set_state h p cancelled q).id ≡ (h q).id = ground arith in
    let same_qty : (set_state h p cancelled q).remaining_qty ≡ (h q).remaining_qty = ground arith in
    ap₂ ◌∷◌
      (ap₂ (λ n m. let e : Entry = record { id = n; price = k; remaining = m } in e) same_id
        same_qty)
      (entries_at-state h p k qs)

entries-state : (h : Heap) (p : ℕ) (s : Shape) → entries (set_state h p cancelled) s ≡ entries h s
entries-state h p [] = refl
entries-state h p ((k, ps) ∷ s) = ap₂ ◌++◌ (entries_at-state h p k ps) (entries-state h p s)

module _ (capacity : ℕ) (b : OrderBook) (bids asks : Shape) (ok : IsBook capacity b bids asks)
    (id : OrderId) (p : ℕ) (found : lookup id b.order_map ≡ some p) where
  listed_there : (contains (slots bids ++ slots asks) p ≡ true) × ((heap b p).id ≡ id)
  listed_there = ok.listed.sound id p found

  gone :
      Unlisted
        (heap b)
        b
        p
        bids
        asks
        (unlist (heap b p).side (heap b p).price p (set_heap b (closed capacity b bids asks ok p)))
  gone = unlisted capacity b bids asks ok p (listed_there.0)

  abbrev rest : OrderBook
  rest = record (set_heap b gone.g) { bids = gone.new_bids; asks = gone.new_asks }

  abbrev left : OrderBook
  left = refresh_best (forget capacity b bids asks ok p id rest)

  stored : heap (forget capacity b bids asks ok p id rest) ≡ gone.g
  stored = storage-deallocate p rest.pool

  left-IsBook : IsBook capacity left (delete p bids) (delete p asks)
  unfolding refresh_best
  left-IsBook =
      let (xs, ys, e, f) = all_split capacity b bids asks ok p (listed_there.0) in
      let parts = IsDistinct-middle xs p ys (rw e at ok.distinct) in
      let out : contains (xs ++ ys) p ≡ false =
        ground (arith, contains-append xs ys p, parts.1, parts.2) in
      let same : (q : ℕ) → contains (p ∷ (xs ++ ys)) q ≡ contains (slots bids ++ slots asks) q =
        λ q. rw e (ground (arith, contains-append xs ys q, contains-append xs (p ∷ ys) q)) in
      let sized : length (p ∷ (xs ++ ys)) ≡ length (slots bids ++ slots asks) =
        rw e (omega (arith, length-append xs ys, length-append xs (p ∷ ys))) in
      record {
        bids_side = rw stored gone.bids_side;
        asks_side = rw stored gone.asks_side;
        bids_sorted = IsSorted-delete greater p bids ok.bids_sorted;
        asks_sorted = IsSorted-delete less p asks ok.asks_sorted;
        distinct = rw f (parts.0);
        accounts = rw f (
            Accounts-release p (xs ++ ys) out (
              Accounts-storage gone.g (
                Accounts-reorder (slots bids ++ slots asks) (p ∷ (xs ++ ys)) same sized
                  ok.accounts)));
        listed =
            rw (f, stored, sym (listed_there.1))
              (Listed-remove b.order_map (heap b) gone.g p (xs ++ ys) (out, parts.0)
                (λ q i. ids capacity b bids asks ok p gone.g gone.payloads q)
                (Listed-reorder b.order_map (heap b) (slots bids ++ slots asks) (p ∷ (xs ++ ys))
                  same sized ok.listed));
        best_bid = refl;
        best_ask = refl;
      }

  same_entries : (s : Shape) → entries (heap left) s ≡ entries (heap b) s
  unfolding refresh_best
  same_entries s =
      ap (λ h. entries h s) stored
      ∙ entries-payload (set_state (heap b) p cancelled) gone.g s gone.payloads
      ∙ entries-state (heap b) p s

  cancel-is : cancel id b ≡ (true, left)
  cancel-is =
      let closed_is : closed capacity b bids asks ok p p ≡ record (heap b p) { state = cancelled } =
        rw (==_self p) refl in
      cancel-found capacity b bids asks ok p id found
        (alive capacity b bids asks ok p (listed_there.0))
      ∙ ap
          (λ (o : Order). (
            true,
            refresh_best (
                forget capacity b bids asks ok p id
                  (unlist o.side o.price p (set_heap b (closed capacity b bids asks ok p)))),
          ))
          closed_is
      ∙ ap (λ (x : OrderBook). (true, refresh_best (forget capacity b bids asks ok p id x)))
          gone.result

  one_freed : suc (used left.pool) ≡ used b.pool
  one_freed =
      let (xs, ys, e, f) = all_split capacity b bids asks ok p (listed_there.0) in
      omega (
        arith,
        left-IsBook.accounts.counted,
        ok.accounts.counted,
        ap length e,
        ap length f,
        length-append xs ys,
        length-append xs (p ∷ ys),
      )

  -- `cancel` of the id of a resting order, in a book at rest, returns true and takes exactly that order
  -- out: the book is at rest without it, every other order keeps its place, price and quantity,
  -- its id is listed no more, no other id is new, and its slot is free again.
  pub cancel_lem : Cancelled capacity b bids asks id p (cancel id b)
  unfolding refresh_best remove_key
  cancel_lem = record {
    after = left;
    returns = cancel-is;
    book = left-IsBook;
    bids_rest = same_entries (delete p bids);
    asks_rest = same_entries (delete p asks);
    gone = lookup-gone b.order_map id ok.listed.keys;
    unlisted = λ j missing. lookup-removed b.order_map j id ok.listed.keys missing;
    freed = one_freed;
  }
