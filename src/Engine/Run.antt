-- ===== src/Engine/Run.antt =====
-- include/engine/engine.hpp and src/engine/engine.cpp, `Engine::run`: one round of its loop. The clock,
-- the two readings of the time stamp counter and the times of the trades are arguments. What goes to
-- the journal is the list of the calls of it.
pub mod Always
pub mod Stepped
pub mod Keeps
pub mod Journalled
pub mod Ids
pub mod Position
pub mod Awaiting
pub mod Serves
pub mod Counted
use low_latency_project.Prelude.{
  ℕ, ◌+◌, ◌-◌, ◌%◌, ◌^◌, Bool, true, false, Option, none, some, List, [], ◌∷◌, ◌++◌, ◌==◌, ltb,
  if◌then◌else◌, length, update,
}
use low_latency_project.Core.Types.{Timestamp, Side}
use low_latency_project.Core.Pool.{ObjectPool, allocate}
use low_latency_project.Core.Ring.{RingBuffer, push, pop}
use low_latency_project.Order.Record.{Order, zero_order, TradeEvent}
use low_latency_project.Order.Book.{OrderBook}
use low_latency_project.Engine.Matching.{match_order}
use low_latency_project.Engine.Risk.{RiskLimits, RiskState, check, on_fill}
use low_latency_project.Engine.Session.{Session, heartbeat_due, is_active, next_seq, open_session}
use low_latency_project.Net.Codec.{encode_new_order, encode_trade_report}
use low_latency_project.Metrics.Latency.{record_delta}
use low_latency_project.Persistence.Journal.Calls.{JournalCall, write, checkpoint}

pub record EngineState : Type 0 where
  pub book : OrderBook
  pub risk_state : RiskState
  pub session : Session
  pub inbound : RingBuffer Order
  pub outbound : RingBuffer TradeEvent
  pub tracker : List ℕ
  pub journal : List JournalCall
  pub journal_record_count : ℕ
  pub order_count : ℕ

abbrev pub ring_capacity : ℕ
ring_capacity = 4096

-- `if (len > 0) journal_->write(buf, len)`
abbrev pub journal_bytes : List ℕ → List JournalCall
journal_bytes bytes = if ltb 0 (length bytes) then write bytes ∷ [] else []

-- The loop over the trades that updates the position and journals them.
unfoldable pub fills_of : Side → List TradeEvent → RiskState → RiskState
fills_of side [] s = s
fills_of side (t ∷ trades) s = fills_of side trades (on_fill side t.trade_qty s)

unfoldable pub journal_trades : List TradeEvent → List JournalCall
journal_trades [] = []
journal_trades (t ∷ trades) = journal_bytes (encode_trade_report 128 t) ++ journal_trades trades

-- `for (auto &t : trades) outbound_.push(t);`, whose results are dropped.
unfoldable pub send_trades : List TradeEvent → RingBuffer TradeEvent → RingBuffer TradeEvent
send_trades [] ring = ring
send_trades (t ∷ trades) ring = send_trades trades (push ring_capacity t ring).1

-- What follows the match.
unfoldable pub settle : ℕ → Order → OrderBook → List TradeEvent → EngineState → EngineState
settle tsc_delta o book trades e =
    let count = (e.journal_record_count + 1) % 2 ^ 64 in
    record e {
      book = book;
      risk_state = fills_of o.side trades e.risk_state;
      outbound = send_trades trades e.outbound;
      tracker = record_delta tsc_delta e.tracker;
      journal =
          e.journal
          ++ (journal_bytes (encode_new_order 128 o)
              ++ (journal_trades trades ++ (if count % 1000 == 0 then checkpoint ∷ [] else [])));
      journal_record_count = count;
      session = (next_seq e.session).1;
      order_count = (e.order_count + 1) % 2 ^ 64;
    }

-- An order that has passed the checks: `none` is the match's undefined behaviour.
unfoldable pub enter : ℕ → (ℕ → Timestamp) → ℕ → Order → EngineState → Option EngineState
enter capacity clock tsc_delta o e =
    let (slot, pool) = allocate capacity zero_order e.book.pool in
    elim slot [
      | none ↦ some e
      | some a ↦
          let b = record (e.book) { pool = record pool { storage = update pool.storage a o } } in
          elim (match_order clock a b) [
            | none ↦ none
            | some r ↦ some (settle tsc_delta o (r.0) (r.1) e)
          ]
    ]

-- The heartbeat at the start of a round.
unfoldable pub beat : Timestamp → EngineState → EngineState
beat now e =
    if heartbeat_due now 1000000000 e.session
    then record e { session = record (e.session) { last_heartbeat_ns = now } }
    else e

unfoldable pub handle :
    RiskLimits → ℕ → (ℕ → Timestamp) → ℕ → Order → EngineState → Option EngineState
handle limits capacity clock tsc_delta o e =
    if is_active e.session
    then (let (passed, risk) = check limits o.side o.price o.qty e.risk_state in
        let e1 = record e { risk_state = risk } in
        let entered = enter capacity clock tsc_delta o e1 in if passed then entered else some e1)
    else some e

unfoldable pub round :
    RiskLimits → ℕ → Timestamp → (ℕ → Timestamp) → ℕ → EngineState → Option EngineState
round limits capacity now clock tsc_delta e =
    let e1 = beat now e in
    let (popped, ring) = pop ring_capacity e1.inbound in
    let e2 = record e1 { inbound = ring } in
    elim popped [ none ↦ some e2 | some o ↦ handle limits capacity clock tsc_delta o e2 ]

-- What a round finds: the orders that other threads have pushed since the round before it, its clock,
-- the times of its trades, and the ticks between the two readings of the time stamp counter.
pub record Tick : Type 0 where
  pub arrived : List Order
  pub now : Timestamp
  pub clock : ℕ → Timestamp
  pub tsc_delta : ℕ

-- An order that finds the ring full is pushed again later.
unfoldable pub arrive : List Order → EngineState → EngineState
arrive [] e = e
arrive (o ∷ orders) e = arrive orders (record e { inbound = (push ring_capacity o e.inbound).1 })

-- The loop, for the rounds until it is stopped.
unfoldable pub rounds : RiskLimits → ℕ → List Tick → EngineState → Option EngineState
rounds limits capacity [] e = some e
rounds limits capacity (t ∷ ticks) e =
    elim (round limits capacity t.now t.clock t.tsc_delta (arrive t.arrived e)) [
      | none ↦ none
      | some e' ↦ rounds limits capacity ticks e'
    ]

unfoldable pub run : RiskLimits → ℕ → List Tick → EngineState → Option EngineState
run limits capacity ticks e =
    rounds limits capacity ticks (record e { session = open_session 1 e.session })
