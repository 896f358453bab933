-- ===== src/Engine/Run/Keeps.antt =====
-- The engine's loop keeps the book: whatever a round does with an order.
use low_latency_project.Prelude.{
  ℕ, ◌^◌, ◌≡◌, ◌<◌, refl, sym, Option, none, some, List, arith, Bool-cases, inl, inr, update, ap,
  ◌∙◌, true,
}
use mathlib.Core.Path.{subst}
use low_latency_project.Prelude.Map.{lookup}
use low_latency_project.Core.Types.{Timestamp, is_buy}
use low_latency_project.Core.Pool.{ObjectPool, allocate}
use low_latency_project.Core.Pool.Slots.{allocate_lem}
use low_latency_project.Core.Ring.{pop}
use low_latency_project.Order.Record.{Order, zero_order, TradeEvent}
use low_latency_project.Order.Book.{OrderBook, heap}
use low_latency_project.Order.Shape.{Shape, Entry, entries}
use low_latency_project.Order.Invariant.{IsBook}
use low_latency_project.Engine.Matching.{match_order}
use low_latency_project.Engine.Matching.Refine.{match_order_lem}
use low_latency_project.Engine.Matching.Uncrossed.{IsUncrossed, Matched-IsUncrossed}
use low_latency_project.Engine.Risk.{RiskLimits, RiskState, check}
use low_latency_project.Engine.Session.{Session, is_active, heartbeat_due}
use low_latency_project.Engine.Run.Ids.{has_id, resting_entries, Matched-has_id}
use low_latency_project.Prelude.Int.{ℤ}
use low_latency_project.Engine.Matching.Loop.{stamp}
use low_latency_project.Engine.Matching.Turned.{choose}
use low_latency_project.Engine.Matching.Priority.{sweep}
use low_latency_project.Engine.Matching.Priority.Laws.{sweep-conserves}
use low_latency_project.Engine.Run.Position.{stayed, filled, trade_total-stamp}
use low_latency_project.Engine.Run.{
  fills_of, EngineState, settle, enter, beat, handle, round, ring_capacity,
}
use low_latency_project.Engine.Run.Stepped.{Kept, Stepped}

module _ (limits : RiskLimits) (capacity : ℕ) (clock : ℕ → Timestamp) (tsc_delta : ℕ)
    (bids asks : Shape) where
  pub entered :
      (o : Order) (e : EngineState) (a : ℕ) (q : ObjectPool Order) (after : OrderBook)
      (trades : List TradeEvent)
      → allocate capacity zero_order e.book.pool ≡ (some a, q)
      → match_order clock a (record (e.book) { pool = record q { storage = update q.storage a o } })
        ≡ some (after, trades)
      → enter capacity clock tsc_delta o e ≡ some (settle tsc_delta o after trades e)
  unfolding enter
  entered o e a q after trades took matched = ground arith

  full :
      (o : Order) (e : EngineState)
      → allocate capacity zero_order e.book.pool ≡ (none, e.book.pool)
      → enter capacity clock tsc_delta o e ≡ some e
  unfolding enter
  full o e none_free = ground arith

  -- A state with the same book.
  unmoved :
      (popped : Option Order) (position : ℤ) (before : List Entry) (r : Option EngineState)
      (e : EngineState)
      → IsBook capacity e.book bids asks
      → IsUncrossed (entries (heap e.book) bids) (entries (heap e.book) asks)
      → r ≡ some e
      → before ≡ resting_entries e.book bids asks
      → e.risk_state.net_position ≡ position
      → Stepped limits capacity e.inbound popped position before r
  unmoved popped position before r e ok un returns same stays = record {
    kept = record {
      after = e;
      bids = bids;
      asks = asks;
      returns = returns;
      book = ok;
      uncrossed = un;
    };
    ring_is = refl;
    moved = stayed stays;
    ids = λ i _ out. ap (has_id i) (sym same) ∙ out;
  }

  enter-Stepped :
      (o : Order) (s : RiskState) (e : EngineState)
      → (check limits o.side o.price o.qty s).0 ≡ true
      → e.risk_state ≡ (check limits o.side o.price o.qty s).1
      → IsBook capacity e.book bids asks
      → IsUncrossed (entries (heap e.book) bids) (entries (heap e.book) asks)
      → lookup o.id e.book.order_map ≡ none
      → o.remaining_qty < 2 ^ 64
      → Stepped limits capacity e.inbound
          (some o)
          s.net_position
          (resting_entries e.book bids asks)
          (enter capacity clock tsc_delta o e)
  unfolding settle check
  enter-Stepped o s e passed risk_is ok un fresh small =
      elim (allocate_lem capacity zero_order e.book.pool ok.accounts.valid) [
        | inl (h, none_free) ↦
            unmoved (some o) s.net_position (resting_entries e.book bids asks)
              (enter capacity clock tsc_delta o e) e ok un (full o e none_free) refl
              (ap (λ (x : RiskState). x.net_position) risk_is)
        | inr (h, (a, q, took_is, took)) ↦
            let hit = entries (heap e.book) (choose (is_buy o.side) bids asks) in
            let out = sweep (is_buy o.side) o.price o.remaining_qty hit in
            let m = match_order_lem capacity clock o e.book bids asks ok fresh small a q took in
            record {
              kept = record {
                after = settle tsc_delta o m.after _ e;
                bids = m.bids;
                asks = m.asks;
                returns = entered o e a q m.after _ took_is m.returns;
                book = m.book;
                uncrossed =
                    Matched-IsUncrossed capacity (is_buy o.side) o.id o.price o.remaining_qty clock
                      (heap e.book) bids asks _ m un;
              };
              ring_is = refl;
              moved =
                  filled o s (stamp clock 0 o.id (out.fills)) refl refl passed
                    (omega (
                      arith,
                      trade_total-stamp clock 0 o.id out.fills,
                      (sweep-conserves (is_buy o.side) o.price o.remaining_qty hit).0,
                    ))
                    (ap
                      (λ (x : RiskState).
                        (fills_of o.side (stamp clock 0 o.id out.fills) x).net_position)
                      risk_is);
              ids =
                  Matched-has_id capacity (is_buy o.side) o.id o.price o.remaining_qty clock
                    (heap e.book) bids asks _ m;
            }
      ]

  handle-Stepped :
      (o : Order) (e : EngineState)
      → IsBook capacity e.book bids asks
      → IsUncrossed (entries (heap e.book) bids) (entries (heap e.book) asks)
      → lookup o.id e.book.order_map ≡ none
      → o.remaining_qty < 2 ^ 64
      → Stepped limits capacity e.inbound
          (some o)
          e.risk_state.net_position
          (resting_entries e.book bids asks)
          (handle limits capacity clock tsc_delta o e)
  unfolding handle check
  handle-Stepped o e ok un fresh small =
      let before = resting_entries e.book bids asks in
      let e1 : EngineState = record e {
        risk_state = (check limits o.side o.price o.qty e.risk_state).1;
      } in
      elim (Bool-cases (is_active e.session)) [
        | inl active ↦ elim (Bool-cases (check limits o.side o.price o.qty e.risk_state).0) [
          | inl passed ↦
              rw (active, passed) (enter-Stepped o e.risk_state e1 passed refl ok un fresh small)
          | inr rejected ↦
              rw (active, rejected)
                (unmoved (some o) e.risk_state.net_position before (some e1) e1 ok un refl refl
                  refl)
        ]
        | inr inactive ↦
            rw inactive
              (unmoved (some o) e.risk_state.net_position before (some e) e ok un refl refl refl)
      ]

  popped-Stepped :
      (popped : Option Order) (e : EngineState)
      → IsBook capacity e.book bids asks
      → IsUncrossed (entries (heap e.book) bids) (entries (heap e.book) asks)
      → ((o : Order)
          → popped ≡ some o
          → (lookup o.id e.book.order_map ≡ none) × (o.remaining_qty < 2 ^ 64))
      → Stepped limits capacity e.inbound popped e.risk_state.net_position
          (resting_entries e.book bids asks)
          (elim popped [ none ↦ some e | some o ↦ handle limits capacity clock tsc_delta o e ])
  popped-Stepped none e ok un orders =
      unmoved none e.risk_state.net_position (resting_entries e.book bids asks) (some e) e ok un
        refl refl refl
  popped-Stepped (some o) e ok un orders =
      handle-Stepped o e ok un (orders o refl).0 (orders o refl).1

  beat_is :
      (now : Timestamp) (e : EngineState) → (s : Session) × (beat now e ≡ record e { session = s })
  unfolding beat
  beat_is now e = elim (Bool-cases (heartbeat_due now 1000000000 e.session)) [
    | inl due ↦ (record (e.session) { last_heartbeat_ns = now }, rw due refl)
    | inr not_due ↦ (e.session, rw not_due refl)
  ]

  -- A round, with what becomes of the ring and of the ids.
  pub round-Stepped :
      (now : Timestamp) (e : EngineState)
      → IsBook capacity e.book bids asks
      → IsUncrossed (entries (heap e.book) bids) (entries (heap e.book) asks)
      → ((o : Order)
          → (pop ring_capacity e.inbound).0 ≡ some o
          → (lookup o.id e.book.order_map ≡ none) × (o.remaining_qty < 2 ^ 64))
      → Stepped limits capacity
          (pop ring_capacity e.inbound).1
          (pop ring_capacity e.inbound).0
          e.risk_state.net_position
          (resting_entries e.book bids asks)
          (round limits capacity now clock tsc_delta e)
  unfolding round
  round-Stepped now e ok un orders =
      let (s, is) = beat_is now e in
      subst
        (λ (x : EngineState).
          Stepped limits capacity (pop ring_capacity e.inbound).1 (pop ring_capacity e.inbound).0
            e.risk_state.net_position (resting_entries e.book bids asks)
            (elim (pop ring_capacity x.inbound).0 [
              | none ↦ some (record x { inbound = (pop ring_capacity x.inbound).1 })
              | some o ↦
                  handle limits capacity clock tsc_delta o
                    (record x { inbound = (pop ring_capacity x.inbound).1 })
            ]))
        (sym is)
        (popped-Stepped (pop ring_capacity e.inbound).0
          (record e { session = s; inbound = (pop ring_capacity e.inbound).1 }) ok un orders)

  -- A round of the loop, from a book at rest in which every bid is below every ask, when the order that
  -- the inbound ring gives, if any, has an id that is not listed and a remaining quantity below 2 ^ 64,
  -- always completes and leaves such a book, whether the order is absent, rejected, dropped for want
  -- of a slot, or matched.
  pub round-IsBook :
      (now : Timestamp) (e : EngineState)
      → IsBook capacity e.book bids asks
      → IsUncrossed (entries (heap e.book) bids) (entries (heap e.book) asks)
      → ((o : Order)
          → (pop ring_capacity e.inbound).0 ≡ some o
          → (lookup o.id e.book.order_map ≡ none) × (o.remaining_qty < 2 ^ 64))
      → Kept capacity (round limits capacity now clock tsc_delta e)
  round-IsBook now e ok un orders = (round-Stepped now e ok un orders).kept
