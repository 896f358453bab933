-- ===== src/Engine/Run/Journalled.antt =====
-- What the engine's loop gives to its journal, and what is replayed of it.
use mathlib.Core.Path.{subst}
use mathlib.Core.List.{map}
use low_latency_project.Prelude.{
  ℕ, suc, ◌+◌, ◌%◌, ◌^◌, ◌≡◌, ◌≤◌, ◌<◌, refl, sym, ap, ◌∙◌, Bool, true, false, some, List, [], ◌∷◌,
  ◌++◌, ◌==◌, if◌then◌else◌, length, arith, lt→ltb,
}
use low_latency_project.Order.Record.{Order, TradeEvent}
use low_latency_project.Order.Book.{OrderBook}
use low_latency_project.Engine.Risk.{RiskLimits}
use low_latency_project.Engine.Run.{EngineState, journal_bytes, journal_trades, settle, Tick, run}
use low_latency_project.Engine.Run.Always.{rounds_keep}
use low_latency_project.Net.Codec.{encode_new_order, encode_trade_report}
use low_latency_project.Persistence.Journal
use low_latency_project.Persistence.Journal.{
  Entry, new_journal, zeros, buffer_size, replay, replay_blocks,
}
use low_latency_project.Persistence.Journal.Calls.{JournalCall, write, checkpoint, perform}
use low_latency_project.Persistence.Journal.Blocks.{readable_then}
use low_latency_project.Persistence.Journal.Log.{log, is_kept, entry_of}
use low_latency_project.Persistence.Journal.Replay.{replay_lem}

-- Every payload has a byte, and no more than a reader takes.
abbrev pub AreShort : List JournalCall → Type 0
AreShort [] = Unit {0}
AreShort (write payload ∷ calls) = ((0 < length payload) × (length payload ≤ 1024)) × AreShort calls
AreShort (checkpoint ∷ calls) = AreShort calls

-- The payloads of the calls, in their order.
pub payloads : List JournalCall → List (List ℕ)
payloads [] = []
payloads (write payload ∷ calls) = payload ∷ payloads calls
payloads (checkpoint ∷ calls) = payloads calls

AreShort-append : (xs ys : List JournalCall) → AreShort xs → AreShort ys → AreShort (xs ++ ys)
AreShort-append [] ys p q = q
AreShort-append (write payload ∷ xs) ys p q = (p.0, AreShort-append xs ys p.1 q)
AreShort-append (checkpoint ∷ xs) ys p q = AreShort-append xs ys p q

journal_bytes-AreShort : (bytes : List ℕ) → length bytes ≤ 1024 → AreShort (journal_bytes bytes)
journal_bytes-AreShort [] h = tt
journal_bytes-AreShort (b ∷ bytes) h =
    rw (lt→ltb 0 (suc (length bytes)) (omega arith)) ((omega arith, h), tt)

length-encode_new_order : (o : Order) → length (encode_new_order 128 o) ≤ 1024
unfolding encode_new_order
length-encode_new_order o = omega arith

length-encode_trade_report : (t : TradeEvent) → length (encode_trade_report 128 t) ≤ 1024
unfolding encode_trade_report
length-encode_trade_report t = omega arith

journal_trades-AreShort : (trades : List TradeEvent) → AreShort (journal_trades trades)
unfolding journal_trades
journal_trades-AreShort [] = tt
journal_trades-AreShort (t ∷ trades) =
    AreShort-append (journal_bytes (encode_trade_report 128 t)) (journal_trades trades)
      (journal_bytes-AreShort (encode_trade_report 128 t) (length-encode_trade_report t))
      (journal_trades-AreShort trades)

checkpoints-AreShort : (due : Bool) → AreShort (if due then checkpoint ∷ [] else [])
checkpoints-AreShort true = tt
checkpoints-AreShort false = tt

settle-AreShort :
    (tsc_delta : ℕ) (o : Order) (book : OrderBook) (trades : List TradeEvent) (e : EngineState)
    → AreShort e.journal
    → AreShort (settle tsc_delta o book trades e).journal
unfolding settle
settle-AreShort tsc_delta o book trades e short = AreShort-append e.journal _ short (
    AreShort-append (journal_bytes (encode_new_order 128 o)) _
      (journal_bytes-AreShort (encode_new_order 128 o) (length-encode_new_order o))
      (AreShort-append (journal_trades trades) _ (journal_trades-AreShort trades)
        (checkpoints-AreShort ((e.journal_record_count + 1) % 2 ^ 64 % 1000 == 0))))

-- Short payloads are all kept and all read.
payloads-log :
    (calls : List JournalCall) (clock : ℕ → ℕ) (seq : ℕ)
    → AreShort calls
    → map (λ (x : Entry). x.payload) (readable_then (log clock seq calls) []) ≡ payloads calls
unfolding log is_kept readable_then payloads entry_of
payloads-log [] clock seq short = refl
payloads-log (write payload ∷ calls) clock seq short =
    ground (arith, payloads-log calls (λ n. clock (suc n)) ((seq + 1) % 2 ^ 64) short.1)
payloads-log (checkpoint ∷ calls) clock seq short =
    payloads-log calls (λ n. clock (suc n)) seq short

-- What is replayed of the journal of a run.
pub run-replay :
    (limits : RiskLimits) (capacity : ℕ) (ticks : List Tick) (e e' : EngineState) (clock : ℕ → ℕ)
    → e.journal ≡ []
    → ((n : ℕ) → clock n < 2 ^ 64)
    → run limits capacity ticks e ≡ some e'
    → (let j = Journal.checkpoint (perform clock e'.journal (new_journal (zeros buffer_size))) in
        map (λ (x : Entry). x.payload) (replay (some (j.written ++ []))) ≡ payloads e'.journal)
unfolding run replay replay_blocks
run-replay limits capacity ticks e e' clock fresh time h =
    let short : AreShort e'.journal =
      rounds_keep limits capacity (λ (x : EngineState). AreShort x.journal) (λ x r short. short)
        (λ x q short. short) (λ x t short. short)
        (λ tsc_delta o book trades x short. settle-AreShort tsc_delta o book trades x short) ticks _
        e' (subst (λ c. AreShort c) (sym fresh) tt) h in
    ap (map (λ (x : Entry). x.payload)) (replay_lem e'.journal clock [] time)
    ∙ payloads-log e'.journal clock 0 short
