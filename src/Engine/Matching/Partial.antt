-- ===== src/Engine/Matching/Partial.antt =====
-- A trade that fills the aggressive order and leaves a part of the passive one.
use Prim.Native.Nat.{min}
use low_latency_project.Prelude.{
  ℕ, ◌-◌, ◌≡◌, ◌<◌, Bool-cases, inl, inr, ==_iff, refl, ap, ◌∙◌, Bool, false, not, List, ◌∷◌, ◌++◌,
  arith, ◌==◌, contains, IsDistinct, contains-append, if◌then◌else◌,
}
use low_latency_project.Core.Types.{Price, Timestamp, Quantity}
use low_latency_project.Order.Record.{Order, Heap, part_fill, filled}
use low_latency_project.Order.Level.{PriceLevel}
use low_latency_project.Order.Book.{OrderBook, Levels, heap, set_heap}
use low_latency_project.Order.Shape.{Shape, slots, Represents, IsLevel, Rests, entries, entries_at}
use low_latency_project.Order.Shape.Frame.{
  Agree, Represents-frame, AllRest-frame, entries-frame, entries_at-frame,
}
use low_latency_project.Order.Accounts.{Accounts-storage}
use low_latency_project.Order.Listed.{Listed-frame}
use low_latency_project.Engine.Matching.{
  hit_levels, set_hit_levels, sub_u64, fill_orders, match_round,
}
use low_latency_project.Engine.Matching.Mid.{Mid, Mid-set, hit_levels-set_heap}
use low_latency_project.Engine.Matching.Fill

-- What the distinctness of the slots says of the aggressive order and the first passive one.
pub record Around (a p : ℕ) (ps ss ts : List ℕ) : Type 0 where
  pub differ : (a == p) ≡ false
  pub a_ps : contains ps a ≡ false
  pub a_ss : contains ss a ≡ false
  pub a_ts : contains ts a ≡ false
  pub p_ps : contains ps p ≡ false
  pub p_ss : contains ss p ≡ false
  pub p_ts : contains ts p ≡ false
  pub rest : IsDistinct ((ps ++ ss) ++ ts)

pub around :
    (a p : ℕ) (ps ss ts : List ℕ) → IsDistinct (a ∷ p ∷ ((ps ++ ss) ++ ts)) → Around a p ps ss ts
around a p ps ss ts d =
    let ca = contains-append (ps ++ ss) ts a in
    let ca' = contains-append ps ss a in
    let cp = contains-append (ps ++ ss) ts p in
    let cp' = contains-append ps ss p in
    record {
      differ = ground (arith, d.0);
      a_ps = ground (arith, ca, ca', d.0);
      a_ss = ground (arith, ca, ca', d.0);
      a_ts = ground (arith, ca, ca', d.0);
      p_ps = ground (arith, cp, cp', d.1.0);
      p_ss = ground (arith, cp, cp', d.1.0);
      p_ts = ground (arith, cp, cp', d.1.0);
      rest = d.1.1;
    }

module _ (hits_asks : Bool) (a p : ℕ) (ps : List ℕ) (k : Price) (s far : Shape) (key : Price)
    (l : PriceLevel) (m : Levels) (b : OrderBook) (capacity : ℕ)
    (at_first : hit_levels hits_asks b ≡ (key, l) ∷ m)
    (mid : Mid capacity hits_asks a ((k, p ∷ ps) ∷ s) far b)
    (part : (heap b a).remaining_qty < (heap b p).remaining_qty) where
  abbrev qty : Quantity
  qty = (heap b a).remaining_qty

  abbrev pub filled_heap : Heap
  filled_heap = fill_orders a p qty (heap b)

  apart : Around a p ps (slots s) (slots far)
  apart = around a p ps (slots s) (slots far) mid.distinct

  level :
      IsLevel (heap b) (not hits_asks) key l k (p ∷ ps) × Represents (heap b) (not hits_asks) m s
  level = rw at_first at mid.hit_side

  agrees :
      (xs : List ℕ) → contains xs a ≡ false → contains xs p ≡ false → Agree xs (heap b) filled_heap
  agrees = Fill.agree (heap b) a p qty apart.differ

  first : Rests (heap b) (not hits_asks) k p
  first = level.0.resting.0

  some_left : ((heap b p).remaining_qty - qty == 0) ≡ false
  some_left = ground (arith, part)

  passive_is :
      filled_heap p
      ≡ record (heap b p) { remaining_qty = (heap b p).remaining_qty - qty; state = part_fill }
  passive_is =
      Fill.passive (heap b) a p qty apart.differ (omega arith) (omega (arith, part)) mid.small
        first.fits
      ∙ ap
          (λ (t : Bool). record (heap b p) {
            remaining_qty = (heap b p).remaining_qty - qty;
            state = if t then filled else part_fill;
          })
          some_left

  pub aggressive_is : filled_heap a ≡ record (heap b a) { remaining_qty = 0 }
  aggressive_is =
      Fill.aggressive (heap b) a p qty apart.differ (omega arith) (omega (arith, part)) mid.small
        first.fits
      ∙ ap (λ n. record (heap b a) { remaining_qty = n }) (omega arith)

  pub aggressive_done : (filled_heap a).remaining_qty ≡ 0
  aggressive_done =
      ap (λ (o : Order). o.remaining_qty)
        (Fill.aggressive (heap b) a p qty apart.differ (omega arith) (omega (arith, part)) mid.small
          first.fits)
      ∙ omega arith

  abbrev pub new_level : PriceLevel
  new_level = record l { total_qty = sub_u64 l.total_qty qty }

  IsLevel-now : IsLevel filled_heap (not hits_asks) key new_level k (p ∷ ps)
  IsLevel-now = record {
    keyed = level.0.keyed;
    priced = level.0.priced;
    queue =
        Fill.IsQueue-fill (heap b) a p qty apart.differ (omega arith) (omega (arith, part))
          mid.small first.fits l ps (ground (arith, apart.differ, apart.a_ps)) level.0.queue;
    filled_in = level.0.filled_in;
    resting = (
      record {
        at_price = rw passive_is first.at_price;
        on_side = rw passive_is first.on_side;
        filling = rw passive_is (omega (arith, part));
        fits = rw passive_is (omega (arith, first.fits));
        alive = rw passive_is refl;
      },
      AllRest-frame (heap b) filled_heap (not hits_asks) k ps (agrees ps apart.a_ps apart.p_ps)
          level.0.resting.1,
    );
  }

  -- Writing to the two orders changes no id.
  same_ids : (q : ℕ) → (filled_heap q).id ≡ (heap b q).id
  same_ids q = elim (Bool-cases (q == a)) [
    | inl here ↦
        let e : q ≡ a = (==_iff q a).0 here in
        rw (
          e,
          Fill.aggressive (heap b) a p qty apart.differ (omega arith) (omega (arith, part))
              mid.small first.fits,
        )
    | inr other ↦ elim (Bool-cases (q == p)) [
      | inl here ↦ let e : q ≡ p = (==_iff q p).0 here in rw (e, passive_is)
      | inr there ↦ rw (Fill.others (heap b) a p qty apart.differ q other there)
    ]
  ]

  pub Mid-partial :
      Mid capacity hits_asks a
        ((k, p ∷ ps) ∷ s)
        far
        (set_hit_levels hits_asks ((key, new_level) ∷ m) (set_heap b filled_heap))
  Mid-partial =
      Mid-set capacity hits_asks a ((k, p ∷ ps) ∷ s) far ((key, new_level) ∷ m)
        (set_heap b filled_heap)
        (
          IsLevel-now,
          Represents-frame (heap b) filled_heap (not hits_asks) m s
              (agrees (slots s) apart.a_ss apart.p_ss) level.1,
        )
        (rw (hit_levels-set_heap (not hits_asks) filled_heap b) (
          Represents-frame (heap b) filled_heap hits_asks (hit_levels (not hits_asks) b) far
            (agrees (slots far) apart.a_ts apart.p_ts) mid.far_side))
        mid.hit_sorted mid.far_sorted mid.distinct (Accounts-storage filled_heap mid.accounts)
        (Listed-frame b.order_map (heap b) filled_heap (slots ((k, p ∷ ps) ∷ s) ++ slots far)
          (λ q i. same_ids q) mid.listed)
        (omega (arith, aggressive_done)) (rw (same_ids a) mid.fresh)

  -- What the round leaves of the side.
  pub entries-partial :
      entries filled_heap ((k, p ∷ ps) ∷ s)
      ≡ record { id = (heap b p).id; price = k; remaining = (heap b p).remaining_qty - qty }
        ∷ (entries_at (heap b) k ps ++ entries (heap b) s)
  entries-partial = rw (
    passive_is,
    entries_at-frame (heap b) filled_heap k ps (agrees ps apart.a_ps apart.p_ps),
    entries-frame (heap b) filled_heap s (agrees (slots s) apart.a_ss apart.p_ss),
  )

  pub entries-far-partial : entries filled_heap far ≡ entries (heap b) far
  entries-far-partial =
      entries-frame (heap b) filled_heap far (agrees (slots far) apart.a_ts apart.p_ts)

  -- The round's book and trade.
  pub match_round-partial :
      (now : Timestamp) (best_price : Price)
      → match_round now hits_asks a p best_price l b ≡ (
        set_hit_levels hits_asks ((key, new_level) ∷ m) (set_heap b filled_heap),
        record {
          aggressive_id = (heap b a).id;
          passive_id = (heap b p).id;
          trade_price = best_price;
          trade_qty = qty;
          timestamp_ns = now;
        },
      )
  unfolding match_round
  match_round-partial now best_price =
      let smaller : min (heap b a).remaining_qty (heap b p).remaining_qty ≡ qty =
        omega (arith, part) in
      rw (smaller, passive_is, some_left, hit_levels-set_heap hits_asks filled_heap b, at_first)
