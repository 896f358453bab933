-- ===== src/Engine/Run/Serves.antt =====
-- The engine's loop over any number of rounds.
use mathlib.Core.Path.{subst}
use mathlib.Core.List.{map}
use low_latency_project.Prelude.{
  ℕ, ◌^◌, ◌≡◌, ◌≤◌, ◌<◌, refl, sym, ◌∙◌, Option, none, some, List, [], ◌∷◌, ◌++◌, arith,
}
use low_latency_project.Prelude.Map.{lookup}
use low_latency_project.Core.Ring.Queue
use low_latency_project.Core.Ring.Window.{Holds}
use low_latency_project.Core.Ring.Refine.{pop_refines}
use low_latency_project.Order.Record.{Order}
use low_latency_project.Order.Book.{heap}
use low_latency_project.Order.Shape.{Shape, entries}
use low_latency_project.Order.Invariant.{IsBook}
use low_latency_project.Engine.Matching.Uncrossed.{IsUncrossed}
use low_latency_project.Engine.Risk.{RiskLimits}
use low_latency_project.Engine.Session.{open_session}
use low_latency_project.Engine.Run.{EngineState, Tick, arrive, round, rounds, run}
use low_latency_project.Engine.Run.Ids.{resting_entries, lookup-has_id}
use low_latency_project.Engine.Run.Journalled.{payloads, run-replay}
use low_latency_project.Persistence.Journal
use low_latency_project.Persistence.Journal.{new_journal, zeros, buffer_size, replay}
use low_latency_project.Persistence.Journal.Calls.{perform}
use low_latency_project.Prelude.Int.{ℤ}
use low_latency_project.Engine.Run.Position.{AreModest, Within, Moved-Within}
use low_latency_project.Engine.Run.Awaiting.{
  IsSmall, Awaiting, orders_of, Awaiting-mono, apart_of_has_order, book-arrive, risk_state-arrive,
  arrive-Holds,
}
use low_latency_project.Engine.Run.Stepped.{Kept, Other}
use low_latency_project.Engine.Run.Keeps.{round-Stepped}

-- The limits of the position are kept, when no order has more left than it was checked for.
abbrev Guarded : (Order → Type 0) → RiskLimits → ℤ → ℤ → Type 0
Guarded Fine limits before after =
    ((o : Order) → Fine o → o.remaining_qty ≤ o.qty)
    → AreModest limits
    → Within limits before
    → Within limits after

-- What is left of a round: the loop can go on with it.
record Ready (Fine : Order → Type 0) (limits : RiskLimits) (capacity : ℕ) (future : List Order)
    (position : ℤ) (r : Option EngineState) : Type 0 where
  kept : Kept capacity r
  guarded : Guarded Fine limits position kept.after.risk_state.net_position
  next : ℕ
  queue : List Order
  held : Holds 12 kept.after.inbound next queue
  waits : Awaiting Fine (resting_entries kept.after.book kept.bids kept.asks) (queue ++ future)

module _ (Fine : Order → Type 0) (small : (o : Order) → Fine o → IsSmall o) (limits : RiskLimits)
    (capacity : ℕ) (t : Tick) (bids asks : Shape) where
  round-Ready :
      (q future : List Order) (start : ℕ) (e : EngineState)
      → IsBook capacity e.book bids asks
      → IsUncrossed (entries (heap e.book) bids) (entries (heap e.book) asks)
      → Holds 12 e.inbound start q
      → Awaiting Fine (resting_entries e.book bids asks) (q ++ future)
      → Ready Fine limits capacity future e.risk_state.net_position
          (round limits capacity t.now t.clock t.tsc_delta e)
  unfolding Queue.pop
  round-Ready [] future start e ok un h w =
      let (popped, (next, held)) = pop_refines h in
      let st =
        round-Stepped limits capacity t.clock t.tsc_delta bids asks t.now e ok un
          (λ o is. let clash = sym popped ∙ is in cc) in
      record {
        kept = st.kept;
        guarded = λ whole modest.
            Moved-Within limits _ e.risk_state.net_position _ modest
              (λ x is. let clash = sym popped ∙ is in cc) st.moved;
        next = next;
        queue = [];
        held = subst (λ r. Holds 12 r next []) (sym st.ring_is) held;
        waits =
            Awaiting-mono Fine (resting_entries e.book bids asks) _ future
              (λ i _ out. st.ids i (subst (Other i) (sym popped) tt) out) w;
      }
  round-Ready (o ∷ q) future start e ok un h w =
      let (popped, (next, held)) = pop_refines h in
      let st = round-Stepped limits capacity t.clock t.tsc_delta bids asks t.now e ok un (λ x is.
        let same : o ≡ x = ground (arith, popped, is) in
        subst (λ (x : Order). (lookup x.id e.book.order_map ≡ none) × (x.remaining_qty < 2 ^ 64))
          same (lookup-has_id capacity e.book bids asks o.id ok w.0.0, small o w.0.2)) in
      record {
        kept = st.kept;
        guarded = λ whole modest.
            Moved-Within limits _ e.risk_state.net_position _ modest
              (λ x is.
                let same : o ≡ x = ground (arith, popped, is) in
                subst (λ (y : Order). y.remaining_qty ≤ y.qty) same (whole o w.0.2))
              st.moved;
        next = next;
        queue = q;
        held = subst (λ r. Holds 12 r next q) (sym st.ring_is) held;
        waits =
            Awaiting-mono Fine (resting_entries e.book bids asks) _ (q ++ future)
              (λ i inside out.
                st.ids i
                  (subst (Other i) (sym popped)
                    (apart_of_has_order i o.id (q ++ future) inside w.0.1))
                  out)
              w.1;
      }

-- What is left of some rounds.
record Served (Fine : Order → Type 0) (limits : RiskLimits) (capacity : ℕ) (position : ℤ)
    (r : Option EngineState) : Type 0 where
  kept : Kept capacity r
  guarded : Guarded Fine limits position kept.after.risk_state.net_position

rounds-Served :
    (Fine : Order → Type 0) (small : (o : Order) → Fine o → IsSmall o) (limits : RiskLimits)
    (capacity : ℕ) (ticks : List Tick) (bids asks : Shape) (q : List Order) (start : ℕ)
    (e : EngineState)
    → IsBook capacity e.book bids asks
    → IsUncrossed (entries (heap e.book) bids) (entries (heap e.book) asks)
    → Holds 12 e.inbound start q
    → Awaiting Fine (resting_entries e.book bids asks) (q ++ orders_of ticks)
    → Served Fine limits capacity e.risk_state.net_position (rounds limits capacity ticks e)
unfolding rounds
rounds-Served Fine small limits capacity [] bids asks q start e ok un h w = record {
  kept = record { after = e; bids = bids; asks = asks; returns = refl; book = ok; uncrossed = un };
  guarded = λ whole modest inside. inside;
}
rounds-Served Fine small limits capacity (t ∷ ticks) bids asks q start e ok un h w =
    let e1 = arrive t.arrived e in
    let same = sym (book-arrive t.arrived e) in
    let (q', held, waits) =
      arrive-Holds Fine t.arrived (resting_entries e.book bids asks) q (orders_of ticks) start e h
        w in
    let done =
      round-Ready Fine small limits capacity t bids asks q' (orders_of ticks) start e1
        (subst (λ b. IsBook capacity b bids asks) same ok)
        (subst (λ b. IsUncrossed (entries (heap b) bids) (entries (heap b) asks)) same un) held
        (subst (λ b. Awaiting Fine (resting_entries b bids asks) (q' ++ orders_of ticks)) same
          waits) in
    let k = done.kept in
    let rest =
      rounds-Served Fine small limits capacity ticks k.bids k.asks done.queue done.next k.after
        k.book k.uncrossed done.held done.waits in
    subst
      (λ r.
        Served Fine limits capacity e.risk_state.net_position
          (elim r [ none ↦ none | some e' ↦ rounds limits capacity ticks e' ]))
      (sym k.returns)
      (record {
        kept = rest.kept;
        guarded = λ whole modest inside.
            rest.guarded whole modest
              (done.guarded whole modest (rw (risk_state-arrive t.arrived e) inside));
      })

run-Served :
    (Fine : Order → Type 0) (small : (o : Order) → Fine o → IsSmall o) (limits : RiskLimits)
    (capacity : ℕ) (ticks : List Tick) (bids asks : Shape) (q : List Order) (start : ℕ)
    (e : EngineState)
    → IsBook capacity e.book bids asks
    → IsUncrossed (entries (heap e.book) bids) (entries (heap e.book) asks)
    → Holds 12 e.inbound start q
    → Awaiting Fine (resting_entries e.book bids asks) (q ++ orders_of ticks)
    → Served Fine limits capacity e.risk_state.net_position (run limits capacity ticks e)
unfolding run
run-Served Fine small limits capacity ticks bids asks q start e ok un h w =
    rounds-Served Fine small limits capacity ticks bids asks q start
      (record e { session = open_session 1 e.session }) ok un h w

-- An engine whose book is at rest with every bid below every ask, when all orders that wait in its
-- inbound ring or arrive have quantities of 64 bits and ids that neither rest nor come again: its loop
-- runs through any number of rounds and leaves such a book.
pub run-Kept :
    (limits : RiskLimits) (capacity : ℕ) (ticks : List Tick) (bids asks : Shape) (q : List Order)
    (start : ℕ) (e : EngineState)
    → IsBook capacity e.book bids asks
    → IsUncrossed (entries (heap e.book) bids) (entries (heap e.book) asks)
    → Holds 12 e.inbound start q
    → Awaiting IsSmall (resting_entries e.book bids asks) (q ++ orders_of ticks)
    → Kept capacity (run limits capacity ticks e)
run-Kept limits capacity ticks bids asks q start e ok un h w =
    (run-Served IsSmall (λ o small. small) limits capacity ticks bids asks q start e ok un h w).kept

-- An engine whose book is at rest with every bid below every ask, with nothing journalled at first, when
-- all orders that wait or arrive have remaining quantities of 64 bits and ids that neither rest nor
-- come again, completes any number of rounds, and what replay gives of its journal, flushed and in a
-- new file, is what it journalled, every payload in its order.
pub run-journal :
    (limits : RiskLimits) (capacity : ℕ) (ticks : List Tick) (bids asks : Shape) (q : List Order)
    (start : ℕ) (e : EngineState) (clock : ℕ → ℕ)
    → IsBook capacity e.book bids asks
    → IsUncrossed (entries (heap e.book) bids) (entries (heap e.book) asks)
    → Holds 12 e.inbound start q
    → Awaiting IsSmall (resting_entries e.book bids asks) (q ++ orders_of ticks)
    → e.journal ≡ []
    → ((n : ℕ) → clock n < 2 ^ 64)
    → (e' : EngineState) × (run limits capacity ticks e ≡ some e')
      × (let j = Journal.checkpoint (perform clock e'.journal (new_journal (zeros buffer_size))) in
          map (λ (x : Journal.Entry). x.payload) (replay (some (j.written ++ [])))
          ≡ payloads e'.journal)
run-journal limits capacity ticks bids asks q start e clock ok un h w fresh time =
    let k = run-Kept limits capacity ticks bids asks q start e ok un h w in
    (k.after, k.returns, run-replay limits capacity ticks e k.after clock fresh time k.returns)

-- An order as it is entered: of 64 bits, with no more left than was asked for.
abbrev pub IsEntered : Order → Type 0
IsEntered o = IsSmall o × (o.remaining_qty ≤ o.qty)

-- An engine whose book is at rest with every bid below every ask, when all orders that wait or arrive
-- have ids that neither rest nor come again, and a remaining quantity of 64 bits that is not above
-- their quantity, and when the limits of a quantity and of the position are below 2 ^ 62: a net
-- position within the limits is within the limits after any number of rounds.
pub run-Within :
    (limits : RiskLimits) (capacity : ℕ) (ticks : List Tick) (bids asks : Shape) (q : List Order)
    (start : ℕ) (e : EngineState)
    → IsBook capacity e.book bids asks
    → IsUncrossed (entries (heap e.book) bids) (entries (heap e.book) asks)
    → Holds 12 e.inbound start q
    → Awaiting IsEntered (resting_entries e.book bids asks) (q ++ orders_of ticks)
    → AreModest limits
    → Within limits e.risk_state.net_position
    → (e' : EngineState) × (run limits capacity ticks e ≡ some e')
      × Within limits e'.risk_state.net_position
run-Within limits capacity ticks bids asks q start e ok un h w modest inside =
    let served =
      run-Served IsEntered (λ o entered. entered.0) limits capacity ticks bids asks q start e ok un
        h w in
    (served.kept.after, served.kept.returns, served.guarded (λ o entered. entered.1) modest inside)
