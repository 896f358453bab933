-- ===== src/Engine/Run/Counted.antt =====
-- What the engine's loop counts: the session's sequence numbers, the orders and the journalled orders.
use low_latency_project.Prelude.{
  ℕ, ◌+◌, ◌/◌, ◌%◌, ◌^◌, ◌≡◌, ◌<◌, refl, ap, ◌∙◌, Bool, true, false, some, List, [], ◌∷◌, ◌++◌,
  arith, if◌then◌else◌, ◌==◌,
}
use low_latency_project.Order.Record.{Order, TradeEvent}
use low_latency_project.Order.Book.{OrderBook, heap}
use low_latency_project.Order.Shape.{Shape, entries}
use low_latency_project.Order.Invariant.{IsBook}
use low_latency_project.Core.Ring.Window.{Holds}
use low_latency_project.Engine.Matching.Uncrossed.{IsUncrossed}
use low_latency_project.Engine.Risk.{RiskLimits}
use low_latency_project.Engine.Session.{is_active, next_seq, open_session}
use low_latency_project.Engine.Run.{EngineState, Tick, run, settle, journal_bytes, journal_trades}
use low_latency_project.Engine.Run.Always.{rounds_keep}
use low_latency_project.Engine.Run.Ids.{resting_entries}
use low_latency_project.Engine.Run.Awaiting.{IsSmall, Awaiting, orders_of}
use low_latency_project.Engine.Run.Serves.{run-Kept}
use low_latency_project.Net.Codec.{code, new_order_msg, encode_new_order, encode_trade_report}
use low_latency_project.Persistence.Journal.Calls.{JournalCall, write, checkpoint}

abbrev pub is_checkpoint : JournalCall → Bool
is_checkpoint (write payload) = false
is_checkpoint checkpoint = true

-- A message of an order, which its first byte says.
abbrev pub is_order : JournalCall → Bool
is_order (write []) = false
is_order (write (b ∷ bytes)) = b == code new_order_msg
is_order checkpoint = false

-- How many calls pass the test.
abbrev pub number : (JournalCall → Bool) → List JournalCall → ℕ
number test [] = 0
number test (call ∷ calls) = (if test call then 1 else 0) + number test calls

-- The session is open, and the journal has the messages of so many orders, of which all three counters
-- tell, modulo 2 ^ 64, and a checkpoint for each full thousand.
pub record Counts (entered : ℕ) (e : EngineState) : Type 0 where
  pub active : is_active e.session ≡ true
  pub first : e.session.session_id ≡ 1
  pub numbered : e.session.seq_num ≡ entered % 2 ^ 64
  pub counted : e.order_count ≡ entered % 2 ^ 64
  pub journalled : e.journal_record_count ≡ entered % 2 ^ 64
  pub entries : number is_order e.journal ≡ entered
  pub checkpointed : entered < 2 ^ 64 → number is_checkpoint e.journal ≡ entered / 1000

-- Another state that counts the same.
Counts-same :
    {n : ℕ} {e e' : EngineState}
    → Counts n e
    → e'.session.state ≡ e.session.state
    → e'.session.session_id ≡ e.session.session_id
    → e'.session.seq_num ≡ e.session.seq_num
    → e'.order_count ≡ e.order_count
    → e'.journal_record_count ≡ e.journal_record_count
    → e'.journal ≡ e.journal
    → Counts n e'
unfolding is_active
Counts-same c a b d f g h = record {
  active = rw a c.active;
  first = b ∙ c.first;
  numbered = d ∙ c.numbered;
  counted = f ∙ c.counted;
  journalled = g ∙ c.journalled;
  entries = ap (number is_order) h ∙ c.entries;
  checkpointed = λ small. ap (number is_checkpoint) h ∙ c.checkpointed small;
}

number-append :
    (test : JournalCall → Bool) (xs ys : List JournalCall)
    → number test (xs ++ ys) ≡ number test xs + number test ys
number-append test [] ys = omega arith
number-append test (call ∷ xs) ys = omega (arith, number-append test xs ys)

-- The journal of an order and its trades, of calls whose writes it counts so.
number-settled :
    (test : JournalCall → Bool) (before order trades due : List JournalCall)
    → number test (before ++ (order ++ (trades ++ due)))
      ≡ number test before + number test order + number test trades + number test due
number-settled test before order trades due = omega (
  arith,
  number-append test before (order ++ (trades ++ due)),
  number-append test order (trades ++ due),
  number-append test trades due,
)

number-journal_trades :
    (test : JournalCall → Bool) (trades : List TradeEvent)
    → ((t : TradeEvent) → number test (journal_bytes (encode_trade_report 128 t)) ≡ 0)
    → number test (journal_trades trades) ≡ 0
unfolding journal_trades
number-journal_trades test [] none_of = refl
number-journal_trades test (t ∷ trades) none_of = omega (
  arith,
  number-append test (journal_bytes (encode_trade_report 128 t)) (journal_trades trades),
  none_of t,
  number-journal_trades test trades none_of,
)

no_checkpoint : (bytes : List ℕ) → number is_checkpoint (journal_bytes bytes) ≡ 0
no_checkpoint bytes = ground arith

one_order : (o : Order) → number is_order (journal_bytes (encode_new_order 128 o)) ≡ 1
unfolding encode_new_order
one_order o = ground arith

no_order : (t : TradeEvent) → number is_order (journal_bytes (encode_trade_report 128 t)) ≡ 0
unfolding encode_trade_report
no_order t = ground arith

number_due : (due : Bool) → number is_order (if due then checkpoint ∷ [] else []) ≡ 0
number_due true = omega arith
number_due false = refl

checkpoint_due :
    (entered count : ℕ)
    → entered + 1 < 2 ^ 64
    → count ≡ (entered + 1) % 2 ^ 64
    → entered / 1000 + number is_checkpoint (if count % 1000 == 0 then checkpoint ∷ [] else [])
      ≡ (entered + 1) / 1000
checkpoint_due entered count small is = ground arith

settle-Counts :
    (tsc_delta : ℕ) (o : Order) (book : OrderBook) (trades : List TradeEvent) (e : EngineState)
    (entered : ℕ)
    → Counts entered e
    → Counts (entered + 1) (settle tsc_delta o book trades e)
unfolding settle next_seq is_active
settle-Counts tsc_delta o book trades e entered k = record {
  active = k.active;
  first = k.first;
  numbered = omega (arith, k.numbered);
  counted = omega (arith, k.counted);
  journalled = omega (arith, k.journalled);
  entries =
      number-settled is_order e.journal (journal_bytes (encode_new_order 128 o))
        (journal_trades trades) _
      ∙ omega (
        arith,
        k.entries,
        one_order o,
        number-journal_trades is_order trades no_order,
        number_due ((e.journal_record_count + 1) % 2 ^ 64 % 1000 == 0),
      );
  checkpointed = λ small.
      number-settled is_checkpoint e.journal (journal_bytes (encode_new_order 128 o))
        (journal_trades trades) _
      ∙ omega (
        arith,
        k.checkpointed (omega arith),
        no_checkpoint (encode_new_order 128 o),
        number-journal_trades is_checkpoint trades (λ t. no_checkpoint (encode_trade_report 128 t)),
        checkpoint_due entered ((e.journal_record_count + 1) % 2 ^ 64) small
            (omega (arith, k.journalled)),
      );
}

-- An engine that has counted nothing and journalled nothing, whose book is at rest with every bid below
-- every ask, when all orders that wait or arrive have remaining quantities of 64 bits and ids that
-- neither rest nor come again: after any number of rounds the session 1 is active; its sequence
-- number, the count of orders and that of journal records are, modulo 2 ^ 64, the number of the
-- orders that the journal has, which has, below 2 ^ 64 orders, a checkpoint for each full thousand.
pub run-Counts :
    (limits : RiskLimits) (capacity : ℕ) (ticks : List Tick) (bids asks : Shape) (q : List Order)
    (start : ℕ) (e : EngineState)
    → IsBook capacity e.book bids asks
    → IsUncrossed (entries (heap e.book) bids) (entries (heap e.book) asks)
    → Holds 12 e.inbound start q
    → Awaiting IsSmall (resting_entries e.book bids asks) (q ++ orders_of ticks)
    → e.session.seq_num ≡ 0
    → e.order_count ≡ 0
    → e.journal_record_count ≡ 0
    → e.journal ≡ []
    → (e' : EngineState) × (run limits capacity ticks e ≡ some e')
      × ((entered : ℕ) × Counts entered e')
unfolding run open_session is_active next_seq
run-Counts limits capacity ticks bids asks q start e ok un h w none_numbered none_counted
      none_recorded fresh =
    let k = run-Kept limits capacity ticks bids asks q start e ok un h w in
    (
      k.after,
      k.returns,
      rounds_keep limits capacity (λ x. (entered : ℕ) × Counts entered x)
          (λ x r c. (c.0, Counts-same c.1 refl refl refl refl refl refl))
          (λ x r c. (c.0, Counts-same c.1 refl refl refl refl refl refl))
          (λ x now c. (c.0, Counts-same c.1 refl refl refl refl refl refl))
          (λ tsc_delta o book trades x c.
            (c.0 + 1, settle-Counts tsc_delta o book trades x c.0 c.1))
          ticks _ k.after
          (
            0,
            record {
              active = refl;
              first = refl;
              numbered = none_numbered;
              counted = none_counted;
              journalled = none_recorded;
              entries = rw fresh refl;
              checkpointed = λ small. rw fresh (omega arith);
            },
          )
          k.returns,
    )
