-- ===== src/Engine/Network/Delivered.antt =====
-- From the engine's loop to a client: what becomes of the trades of an order.
use mathlib.Core.Path.{subst}
use mathlib.Core.List.{append_assoc, append-nil}
use low_latency_project.Prelude.{
  ℕ, zero, suc, ◌^◌, ◌≡◌, ◌≤◌, ◌<◌, refl, sym, ap, ◌∙◌, true, none, some, List, [], ◌∷◌, ◌++◌, ltb,
  length, arith, take, inl, inr, Bool-cases,
}
use low_latency_project.Prelude.Map.{lookup}
use low_latency_project.Core.Types.{Timestamp, is_buy}
use low_latency_project.Core.Pool.{used}
use low_latency_project.Core.Pool.Slots.{allocate_lem}
use low_latency_project.Core.Ring.{RingBuffer, push}
use low_latency_project.Core.Ring.Queue
use low_latency_project.Core.Ring.Window.{Holds}
use low_latency_project.Core.Ring.Refine.{push_refines}
use low_latency_project.Order.Record.{Order, zero_order, TradeEvent}
use low_latency_project.Order.Book.{heap}
use low_latency_project.Order.Shape.{Shape, entries}
use low_latency_project.Order.Invariant.{IsBook}
use low_latency_project.Engine.Matching.Loop.{stamp}
use low_latency_project.Engine.Matching.Turned.{choose}
use low_latency_project.Engine.Matching.Priority.{sweep}
use low_latency_project.Engine.Matching.Refine.{match_order_lem}
use low_latency_project.Engine.Risk.{RiskLimits, check}
use low_latency_project.Engine.Session.{is_active}
use low_latency_project.Engine.Run.{EngineState, send_trades, settle, handle, ring_capacity}
use low_latency_project.Engine.Run.Keeps.{entered}
use low_latency_project.Engine.Network.{send_client}
use low_latency_project.Engine.Network.Send.{reports, send_client_lem}

take-length : (xs ys : List TradeEvent) (n : ℕ) → length xs ≡ n → take n (xs ++ ys) ≡ xs
take-length [] ys zero e = refl
take-length [] ys (suc n) e = absurd (omega (arith, e))
take-length (x ∷ xs) ys zero e = absurd (omega (arith, e))
take-length (x ∷ xs) ys (suc n) e = ap (λ l. x ∷ l) (take-length xs ys n (omega (arith, e)))

take_all : (xs : List TradeEvent) (n : ℕ) → length xs ≤ n → take n xs ≡ xs
take_all [] zero le = refl
take_all [] (suc n) le = refl
take_all (x ∷ xs) zero le = absurd (omega (arith, le))
take_all (x ∷ xs) (suc n) le = ap (λ l. x ∷ l) (take_all xs n (omega (arith, le)))

-- The ring keeps the first trades, as many as there is room for, and the others are lost.
send_trades-Holds :
    (trades : List TradeEvent) (ring : RingBuffer TradeEvent) (start : ℕ) (q : List TradeEvent)
    → Holds 12 ring start q
    → Holds 12 (send_trades trades ring) start (take 4096 (q ++ trades))
unfolding send_trades
send_trades-Holds [] ring start q h =
    subst (Holds 12 ring start)
      (sym (take_all (q ++ []) 4096 (rw (append-nil q) h.fits) ∙ append-nil q)) h
send_trades-Holds (te ∷ trades) ring start q h =
    let ring1 = (push ring_capacity te ring).1 in
    let held = subst (Holds 12 ring1 start) (Queue.push_leaves 4096 te q) (push_refines te h).1 in
    elim (Bool-cases (ltb (length q) 4096)) [
      | inl room ↦
          subst (λ l. Holds 12 (send_trades trades ring1) start (take 4096 l))
            (append_assoc q (te ∷ []) trades)
            (send_trades-Holds trades ring1 start (q ++ (te ∷ [])) (rw room at held))
      | inr full ↦
          let exact : length q ≡ 4096 = ground (arith, full, h.fits) in
          subst (Holds 12 (send_trades trades ring1) start)
            (take-length q trades 4096 exact ∙ sym (take-length q (te ∷ trades) 4096 exact))
            (send_trades-Holds trades ring1 start q (rw full at held))
    ]

-- An order that has passed the checks of an active session, on a book at rest, with an id that is not
-- listed, a quantity of 64 bits and a pool with a free slot: the engine handles it, and what
-- 4096 rounds of the sending loop give to `send` is exactly the reports of the trades that waited and
-- then of those that the order's sweep makes, in their order, the first 4096 of them.
pub handle-delivers :
    (limits : RiskLimits) (capacity : ℕ) (clock : ℕ → Timestamp) (tsc_delta : ℕ) (bids asks : Shape)
    (o : Order) (e : EngineState) (start : ℕ) (q : List TradeEvent)
    → IsBook capacity e.book bids asks
    → lookup o.id e.book.order_map ≡ none
    → o.remaining_qty < 2 ^ 64
    → used e.book.pool < capacity
    → is_active e.session ≡ true
    → (check limits o.side o.price o.qty e.risk_state).0 ≡ true
    → Holds 12 e.outbound start q
    → let fills =
        (sweep
          (is_buy o.side)
          o.price
          o.remaining_qty
          (entries (heap e.book) (choose (is_buy o.side) bids asks))).fills in
      (e' : EngineState) × (handle limits capacity clock tsc_delta o e ≡ some e')
      × ((send_client 4096 e'.outbound).0 ≡ reports (take 4096 (q ++ stamp clock 0 o.id fills)))
unfolding handle settle
handle-delivers limits capacity clock tsc_delta bids asks o e start q ok fresh small room active
      passed h =
    let e1 : EngineState = record e {
      risk_state = (check limits o.side o.price o.qty e.risk_state).1;
    } in
    elim (allocate_lem capacity zero_order e.book.pool ok.accounts.valid) [
      | inl (none_free, _) ↦ absurd (omega (arith, none_free, room))
      | inr (_, (a, p, took_is, took)) ↦
          let m = match_order_lem capacity clock o e.book bids asks ok fresh small a p took in
          let held = send_trades-Holds _ e.outbound start q h in
          rw (active, passed)
            (
              settle tsc_delta o m.after _ e1,
              entered limits capacity clock tsc_delta bids asks o e1 a p m.after _ took_is
                  m.returns,
              (send_client_lem 4096 _ start _ held held.fits).0,
            )
    ]
