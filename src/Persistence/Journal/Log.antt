-- ===== src/Persistence/Journal/Log.antt =====
-- The records that calls of `Journal::write` make, and where the journal holds them.
use mathlib.Core.Path.{subst}
use mathlib.Core.List.{append_assoc, append-nil, map-append}
use low_latency_project.Prelude.{
  ℕ, suc, ◌+◌, ◌%◌, ◌^◌, ◌≡◌, ◌≤◌, ◌<◌, refl, sym, ap, ◌∙◌, Bool, true, false, not, ◌||◌, List, [],
  ◌∷◌, ◌++◌, ltb, ◌==◌, if◌then◌else◌, length, arith, inl, inr, Bool-cases,
}
use low_latency_project.Persistence.Journal
use low_latency_project.Persistence.Journal.{
  JournalRecord, Entry, Journal, header_size, buffer_size, header_bytes, zeros, copy, flush_buffer,
  append_record, new_journal,
}
use low_latency_project.Persistence.Journal.Blocks.{entries_bytes, size}
use low_latency_project.Persistence.Journal.Calls.{JournalCall, write, checkpoint, perform}
use low_latency_project.Persistence.Journal.Pack.{
  block, concat, Holds, size-snoc, AreEntries-snoc, AreBlocks-snoc, concat-snoc, copy-entry,
}

unfoldable pub entry_of : ℕ → ℕ → List ℕ → Entry
entry_of seq now payload = record {
  header = record { seq_no = seq; timestamp_ns = now; payload_len = length payload };
  payload = payload;
}

-- Neither nothing nor more than a block.
unfoldable pub is_kept : List ℕ → Bool
is_kept payload = not (length payload == 0 || ltb buffer_size (header_size + length payload))

-- The records of the calls: those that are kept, numbered in their order.
unfoldable pub log : (ℕ → ℕ) → ℕ → List JournalCall → List Entry
log clock seq [] = []
log clock seq (write payload ∷ calls) =
    if is_kept payload
    then entry_of seq (clock 0) payload ∷ log (λ n. clock (suc n)) ((seq + 1) % 2 ^ 64) calls
    else log (λ n. clock (suc n)) seq calls
log clock seq (checkpoint ∷ calls) = log (λ n. clock (suc n)) seq calls

pub new_journal-Holds : Holds [] (new_journal (zeros buffer_size))
unfolding block concat entries_bytes size
new_journal-Holds = record {
  packed = [];
  pending = [];
  in_order = refl;
  blocks = refl;
  packed_fit = tt;
  buffered = refl;
  position = refl;
  pending_fit = omega arith;
  entries = tt;
  seq_fits = omega arith;
}

module _ {stored : List Entry} {j : Journal} (h : Holds stored j) where
  flush_buffer-Holds : 0 < j.buf_pos → Holds stored (flush_buffer j)
  unfolding flush_buffer block entries_bytes size
  flush_buffer-Holds some = record {
    packed = h.packed ++ (h.pending ∷ []);
    pending = [];
    in_order =
        h.in_order
        ∙ sym (concat-snoc h.packed h.pending)
        ∙ sym (append-nil (concat (h.packed ++ (h.pending ∷ []))));
    blocks = rw (h.blocks, h.buffered, map-append) refl;
    packed_fit =
        AreBlocks-snoc h.packed h.pending h.packed_fit h.entries (omega (arith, h.position))
          h.pending_fit;
    buffered = refl;
    position = refl;
    pending_fit = omega arith;
    entries = tt;
    seq_fits = h.seq_fits;
  }

  pub checkpoint-Holds : Holds stored (Journal.checkpoint j)
  unfolding Journal.checkpoint
  checkpoint-Holds = elim (Bool-cases (ltb 0 j.buf_pos)) [
    | inl some ↦ rw some (flush_buffer-Holds (ground arith))
    | inr nothing ↦ rw nothing h
  ]

  append_record-Holds :
      (now : ℕ) (payload : List ℕ)
      → now < 2 ^ 64
      → 0 < length payload
      → j.buf_pos + (header_size + length payload) ≤ buffer_size
      → Holds (stored ++ (entry_of j.seq now payload ∷ [])) (append_record now payload j)
  unfolding append_record entry_of
  append_record-Holds now payload time some room =
      let e = entry_of j.seq now payload in
      record {
        packed = h.packed;
        pending = h.pending ++ (e ∷ []);
        in_order =
            ap (λ t. t ++ (e ∷ [])) h.in_order ∙ append_assoc (concat h.packed) h.pending (e ∷ []);
        blocks = h.blocks;
        packed_fit = h.packed_fit;
        buffered = rw (h.position, h.buffered) (copy-entry h.pending e (omega (arith, h.position)));
        position = omega (arith, h.position, size-snoc h.pending e);
        pending_fit = omega (arith, h.position, size-snoc h.pending e);
        entries = AreEntries-snoc h.pending e h.entries (record {
          measured = refl;
          some_bytes = some;
          few_bytes = omega arith;
          seq_fits = h.seq_fits;
          time_fits = time;
        });
        seq_fits = omega arith;
      }

-- A payload that is kept becomes the next record, in this block or in a new one.
write-Holds-kept :
    {stored : List Entry} {j : Journal} (h : Holds stored j) (now : ℕ) (payload : List ℕ)
    → now < 2 ^ 64
    → is_kept payload ≡ true
    → Holds (stored ++ (entry_of j.seq now payload ∷ [])) (Journal.write now payload j)
unfolding Journal.write is_kept flush_buffer
write-Holds-kept {stored} {j} h now payload time kept =
    let total : ℕ = header_size + length payload in
    let some : (length payload == 0) ≡ false = ground (arith, kept) in
    let small : ltb buffer_size total ≡ false = ground (arith, kept) in
    let full = λ (e : ltb buffer_size (j.buf_pos + total) ≡ true).
      append_record-Holds (flush_buffer-Holds h (ground (arith, small, e))) now payload time
        (ground (arith, some)) (ground (arith, small)) in
    let room = λ (e : ltb buffer_size (j.buf_pos + total) ≡ false).
      append_record-Holds h now payload time (ground (arith, some)) (ground (arith, e)) in
    rw (some, small)
      (elim (Bool-cases (ltb buffer_size (j.buf_pos + total))) [
        | inl e ↦ rw e (full e)
        | inr e ↦ rw e (room e)
      ])

write-Holds-dropped :
    {stored : List Entry} {j : Journal} (h : Holds stored j) (now : ℕ) (payload : List ℕ)
    → is_kept payload ≡ false
    → Holds stored (Journal.write now payload j)
unfolding Journal.write is_kept
write-Holds-dropped h now payload dropped = elim (Bool-cases (length payload == 0)) [
  | inl nothing ↦ rw nothing h
  | inr some ↦
      let large : ltb buffer_size (header_size + length payload) ≡ true =
        ground (arith, some, dropped) in
      rw (some, large) (checkpoint-Holds h)
]

seq-checkpoint : (j : Journal) → (Journal.checkpoint j).seq ≡ j.seq
unfolding Journal.checkpoint flush_buffer
seq-checkpoint j = ground arith

seq-write :
    (now : ℕ) (payload : List ℕ) (j : Journal)
    → (Journal.write now payload j).seq ≡ (if is_kept payload then (j.seq + 1) % 2 ^ 64 else j.seq)
unfolding Journal.write is_kept append_record flush_buffer
seq-write now payload j = ground (arith, seq-checkpoint j)

-- The calls leave the records in the journal that they make.
pub perform-Holds :
    (calls : List JournalCall) (clock : ℕ → ℕ) (stored : List Entry) (j : Journal) (seq : ℕ)
    → j.seq ≡ seq
    → ((n : ℕ) → clock n < 2 ^ 64)
    → Holds stored j
    → Holds (stored ++ log clock seq calls) (perform clock calls j)
unfolding perform log
perform-Holds [] clock stored j seq e time h = rw append-nil h
perform-Holds (write payload ∷ calls) clock stored j seq e time h =
    let go = perform-Holds calls (λ n. clock (suc n)) in
    let numbered = seq-write (clock 0) payload j in
    elim (Bool-cases (is_kept payload)) [
      | inl kept ↦ rw kept (
          subst (λ l. Holds l (perform clock (write payload ∷ calls) j))
            (append_assoc stored (entry_of seq (clock 0) payload ∷ []) _)
            (go _ (Journal.write (clock 0) payload j) ((seq + 1) % 2 ^ 64)
              (ground (arith, numbered, kept, e)) (λ n. time (suc n))
              (subst
                (λ (n : ℕ).
                  Holds (stored ++ (entry_of n (clock 0) payload ∷ []))
                    (Journal.write (clock 0) payload j))
                e (write-Holds-kept h (clock 0) payload (time 0) kept))))
      | inr dropped ↦ rw dropped (
          go stored (Journal.write (clock 0) payload j) seq (ground (arith, numbered, dropped, e))
            (λ n. time (suc n)) (write-Holds-dropped h (clock 0) payload dropped))
    ]
perform-Holds (checkpoint ∷ calls) clock stored j seq e time h =
    perform-Holds calls (λ n. clock (suc n)) stored (Journal.checkpoint j) seq
      (seq-checkpoint j ∙ e) (λ n. time (suc n)) (checkpoint-Holds h)
