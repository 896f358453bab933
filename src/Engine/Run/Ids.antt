-- ===== src/Engine/Run/Ids.antt =====
-- The ids of the resting orders: matching brings in no other id than that of the incoming order.
use mathlib.Core.Bool.{or_assoc}
use low_latency_project.Prelude.{
  ℕ, ◌-◌, ◌≡◌, refl, sym, ap, ◌∙◌, Bool, true, false, ◌||◌, Option, none, List, [], ◌∷◌, ◌++◌, ◌==◌,
  arith, contains, contains-append, Bool-cases, Option-cases, inl, inr, ==_self, ==_iff,
}
use low_latency_project.Prelude.Map.{lookup}
use low_latency_project.Core.Types.{OrderId, Price, Quantity, Timestamp}
use low_latency_project.Order.Record.{Heap, TradeEvent}
use low_latency_project.Order.Book.{OrderBook, heap}
use low_latency_project.Order.Shape.{Shape, Entry, entries, entries_at, slots}
use low_latency_project.Order.Invariant.{IsBook}
use low_latency_project.Order.Insert.Place.{insert_entry}
use low_latency_project.Engine.Matching.Priority.{sweep}
use low_latency_project.Engine.Matching.Turned.{choose}
use low_latency_project.Engine.Matching.Refine.{Matched, rest_of}

unfoldable pub has_id : OrderId → List Entry → Bool
has_id i [] = false
has_id i (e ∷ es) = (i == e.id) || has_id i es

-- The entries of both sides.
abbrev pub resting_entries : OrderBook → Shape → Shape → List Entry
resting_entries b bids asks = entries (heap b) bids ++ entries (heap b) asks

pub has_id-append :
    (i : OrderId) (xs ys : List Entry) → has_id i (xs ++ ys) ≡ (has_id i xs || has_id i ys)
unfolding has_id
has_id-append i [] ys = refl
has_id-append i (x ∷ xs) ys = rw (has_id-append i xs ys, or_assoc)

has_id-sweep :
    (i : OrderId) (s : Bool) (price : Price) (qty : Quantity) (es : List Entry)
    → has_id i es ≡ false
    → has_id i (sweep s price qty es).rest ≡ false
unfolding has_id sweep
has_id-sweep i s price qty [] h = refl
has_id-sweep i s price qty (e ∷ es) h =
    ground (arith, has_id-sweep i s price (qty - e.remaining) es)

has_id-insert_entry :
    (i : OrderId) (bid : Bool) (e : Entry) (es : List Entry)
    → (i == e.id) ≡ false
    → has_id i es ≡ false
    → has_id i (insert_entry bid e es) ≡ false
unfolding has_id insert_entry
has_id-insert_entry i bid e [] other h = ground arith
has_id-insert_entry i bid e (x ∷ xs) other h = ground (arith, has_id-insert_entry i bid e xs other)

has_id-rest_of :
    (i : OrderId) (bid : Bool) (id : OrderId) (price : Price) (left : Quantity) (es : List Entry)
    → (i == id) ≡ false
    → has_id i es ≡ false
    → has_id i (rest_of bid id price left es) ≡ false
has_id-rest_of i bid id price left es other h = elim (Bool-cases (left == 0)) [
  | inl none_left ↦ rw none_left h
  | inr some_left ↦
      rw some_left
        (has_id-insert_entry i bid (record { id = id; price = price; remaining = left }) es other h)
]

-- An id that neither rests nor arrives does not rest afterwards.
pub Matched-has_id :
    (capacity : ℕ) (s : Bool) (id : OrderId) (price : Price) (qty : Quantity)
    (clock : ℕ → Timestamp) (h : Heap) (bids asks : Shape)
    (r : Option (OrderBook × List TradeEvent))
    (m : Matched capacity s id price clock
      (entries h (choose s asks bids))
      (sweep s price qty (entries h (choose s bids asks)))
      r)
    (i : OrderId)
    → (i == id) ≡ false
    → has_id i (entries h bids ++ entries h asks) ≡ false
    → has_id i (resting_entries m.after m.bids m.asks) ≡ false
Matched-has_id capacity true id price qty clock h bids asks r m i other out =
    let on_bids : has_id i (entries h bids) ≡ false =
      ground (arith, has_id-append i (entries h bids) (entries h asks)) in
    let on_asks : has_id i (entries h asks) ≡ false =
      ground (arith, has_id-append i (entries h bids) (entries h asks)) in
    let left = (sweep true price qty (entries h asks)).left in
    has_id-append i (entries (heap m.after) m.bids) (entries (heap m.after) m.asks)
    ∙ rw
        (
          m.hit_rest,
          m.far_rest,
          has_id-sweep i true price qty (entries h asks) on_asks,
          has_id-rest_of i true id price left (entries h bids) other on_bids,
        )
        refl
Matched-has_id capacity false id price qty clock h bids asks r m i other out =
    let on_bids : has_id i (entries h bids) ≡ false =
      ground (arith, has_id-append i (entries h bids) (entries h asks)) in
    let on_asks : has_id i (entries h asks) ≡ false =
      ground (arith, has_id-append i (entries h bids) (entries h asks)) in
    let left = (sweep false price qty (entries h bids)).left in
    has_id-append i (entries (heap m.after) m.bids) (entries (heap m.after) m.asks)
    ∙ rw
        (
          m.hit_rest,
          m.far_rest,
          has_id-sweep i false price qty (entries h bids) on_bids,
          has_id-rest_of i false id price left (entries h asks) other on_asks,
        )
        refl

has_id-entries_at :
    (h : Heap) (k : Price) (ps : List ℕ) (p : ℕ)
    → contains ps p ≡ true
    → has_id (h p).id (entries_at h k ps) ≡ true
unfolding has_id
has_id-entries_at h k [] p i = absurd (ground (arith, i))
has_id-entries_at h k (q ∷ ps) p i = elim (Bool-cases (q == p)) [
  | inl here ↦
      let same : q ≡ p = (==_iff q p).0 here in
      ap (λ n. (h p).id == (h n).id || has_id (h p).id (entries_at h k ps)) same
      ∙ rw (==_self (h p).id) refl
  | inr there ↦ ground (arith, there, has_id-entries_at h k ps p)
]

has_id-entries :
    (h : Heap) (s : Shape) (p : ℕ)
    → contains (slots s) p ≡ true
    → has_id (h p).id (entries h s) ≡ true
has_id-entries h [] p i = absurd (ground (arith, i))
has_id-entries h ((k, ps) ∷ s) p i = ground (
  arith,
  contains-append ps (slots s) p,
  has_id-append (h p).id (entries_at h k ps) (entries h s),
  has_id-entries_at h k ps p,
  has_id-entries h s p,
)

-- An id that does not rest is not listed.
pub lookup-has_id :
    (capacity : ℕ) (b : OrderBook) (bids asks : Shape) (i : OrderId)
    → IsBook capacity b bids asks
    → has_id i (resting_entries b bids asks) ≡ false
    → lookup i b.order_map ≡ none
lookup-has_id capacity b bids asks i ok out = elim (Option-cases (lookup i b.order_map)) [
  | inl missing ↦ missing
  | inr (p, found) ↦
      let (inside, named) = ok.listed.sound i p found in
      let seen : has_id (heap b p).id (resting_entries b bids asks) ≡ true = ground (
        arith,
        contains-append (slots bids) (slots asks) p,
        has_id-append (heap b p).id (entries (heap b) bids) (entries (heap b) asks),
        has_id-entries (heap b) bids p,
        has_id-entries (heap b) asks p,
      ) in
      let clash : has_id i (resting_entries b bids asks) ≡ true = rw (sym named) seen in cc
]
