-- ===== src/Engine/Run/Always.antt =====
-- What the steps of the engine keep, its loop keeps.
use mathlib.Core.Path.{subst}
use low_latency_project.Prelude.{
  ℕ, ◌≡◌, sym, some, List, [], ◌∷◌, arith, inl, inr, Bool-cases, Option-cases, update,
}
use low_latency_project.Core.Types.{Timestamp}
use low_latency_project.Core.Pool.{allocate}
use low_latency_project.Core.Ring.{RingBuffer, push, pop}
use low_latency_project.Order.Record.{Order, TradeEvent, zero_order}
use low_latency_project.Order.Book.{OrderBook}
use low_latency_project.Engine.Matching.{match_order}
use low_latency_project.Engine.Risk.{RiskLimits, RiskState, check}
use low_latency_project.Engine.Session.{is_active, heartbeat_due}
use low_latency_project.Engine.Run.{
  EngineState, settle, enter, beat, handle, round, Tick, arrive, rounds, ring_capacity,
}

module _ (limits : RiskLimits) (capacity : ℕ) (Keeps : EngineState → Type 0)
    (risk : (e : EngineState) (s : RiskState) → Keeps e → Keeps (record e { risk_state = s }))
    (ring : (e : EngineState) (q : RingBuffer Order) → Keeps e → Keeps (record e { inbound = q }))
    (clocked : (e : EngineState) (now : Timestamp)
      → Keeps e
      → Keeps (record e { session = record (e.session) { last_heartbeat_ns = now } }))
    (settled : (tsc_delta : ℕ) (o : Order) (book : OrderBook) (trades : List TradeEvent)
        (e : EngineState)
      → Keeps e
      → Keeps (settle tsc_delta o book trades e)) where
  module _ (clock : ℕ → Timestamp) (tsc_delta : ℕ) where
    enter_keeps :
        (o : Order) (e e' : EngineState)
        → Keeps e
        → enter capacity clock tsc_delta o e ≡ some e'
        → Keeps e'
    unfolding enter
    enter_keeps o e e' k h =
        let q = (allocate capacity zero_order e.book.pool).1 in
        elim (Option-cases (allocate capacity zero_order e.book.pool).0) [
          | inl none_free ↦
              let same : e' ≡ e = ground (arith, none_free) in subst Keeps (sym same) k
          | inr (a, took) ↦
              let b = record (e.book) { pool = record q { storage = update q.storage a o } } in
              elim (Option-cases (match_order clock a b)) [
                | inl undefined ↦ absurd (ground (arith, took, undefined))
                | inr (r, matched) ↦
                    let same : e' ≡ settle tsc_delta o (r.0) (r.1) e =
                      ground (arith, took, matched) in
                    subst Keeps (sym same) (settled tsc_delta o (r.0) (r.1) e k)
              ]
        ]

    handle_keeps :
        (o : Order) (e e' : EngineState)
        → Keeps e
        → handle limits capacity clock tsc_delta o e ≡ some e'
        → Keeps e'
    unfolding handle
    handle_keeps o e e' k h =
        let checked = check limits o.side o.price o.qty e.risk_state in
        let e1 = record e { risk_state = checked.1 } in
        elim (Bool-cases (is_active e.session)) [
          | inr idle ↦ let same : e' ≡ e = ground (arith, idle) in subst Keeps (sym same) k
          | inl active ↦ elim (Bool-cases (checked.0)) [
            | inl passed ↦ enter_keeps o e1 e' (risk e checked.1 k) (ground (arith, active, passed))
            | inr refused ↦
                let same : e' ≡ e1 = ground (arith, active, refused) in
                subst Keeps (sym same) (risk e checked.1 k)
          ]
        ]

    beat_keeps : (now : Timestamp) (e : EngineState) → Keeps e → Keeps (beat now e)
    unfolding beat
    beat_keeps now e k = elim (Bool-cases (heartbeat_due now 1000000000 e.session)) [
      | inl due ↦ rw due (clocked e now k)
      | inr not_due ↦ rw not_due k
    ]

    round_keeps :
        (now : Timestamp) (e e' : EngineState)
        → Keeps e
        → round limits capacity now clock tsc_delta e ≡ some e'
        → Keeps e'
    unfolding round
    round_keeps now e e' k h =
        let popped = pop ring_capacity (beat now e).inbound in
        let e2 = record (beat now e) { inbound = popped.1 } in
        let k2 = ring (beat now e) popped.1 (beat_keeps now e k) in
        elim (Option-cases (popped.0)) [
          | inl nothing ↦ let same : e' ≡ e2 = ground (arith, nothing) in subst Keeps (sym same) k2
          | inr (o, found) ↦ handle_keeps o e2 e' k2 (ground (arith, found))
        ]

  arrive_keeps : (orders : List Order) (e : EngineState) → Keeps e → Keeps (arrive orders e)
  unfolding arrive
  arrive_keeps [] e k = k
  arrive_keeps (o ∷ orders) e k =
      arrive_keeps orders (record e { inbound = (push ring_capacity o e.inbound).1 }) (ring e _ k)

  pub rounds_keep :
      (ticks : List Tick) (e e' : EngineState)
      → Keeps e
      → rounds limits capacity ticks e ≡ some e'
      → Keeps e'
  unfolding rounds
  rounds_keep [] e e' k h = let same : e ≡ e' = ground arith in subst Keeps same k
  rounds_keep (t ∷ ticks) e e' k h =
      let arrived = arrive t.arrived e in
      elim (Option-cases (round limits capacity t.now t.clock t.tsc_delta arrived)) [
        | inl undefined ↦ absurd (ground (arith, undefined))
        | inr (e1, done) ↦
            rounds_keep ticks e1 e'
              (round_keeps t.clock t.tsc_delta t.now arrived e1 (arrive_keeps t.arrived e k) done)
              (ground (arith, done))
      ]
