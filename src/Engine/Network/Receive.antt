-- ===== src/Engine/Network/Receive.antt =====
-- The receiving loop: which messages reach the engine, and what they take from the pool.
use mathlib.Core.Path.{subst}
use mathlib.Core.List.{append_assoc, append-nil}
use low_latency_project.Prelude.{
  ℕ, zero, suc, ◌+◌, ◌-◌, ◌≡◌, ◌≢◌, ◌≤◌, ◌<◌, refl, sym, ap, ◌∙◌, Option, some, List, [], ◌∷◌, ◌++◌,
  length, take, arith, inl, inr, update, length-append, Bool-cases, ltb,
}
use low_latency_project.Core.Pool.{ObjectPool, deallocate, used}
use low_latency_project.Core.Pool.Slots.{IsValid, allocate_lem, deallocate_lem}
use low_latency_project.Order.Record.{Order, zero_order}
use low_latency_project.Net.Codec.{Decoded, decode, rejected, decoded, out_of_bounds}
use low_latency_project.Engine.Network.{
  Received, disconnected, failed, message, Receiver, receive_message, recv_client,
}

-- The orders of the messages that decode, up to the end of the connection.
pub accepted : List Received → List Order
accepted [] = []
accepted (disconnected ∷ more) = []
accepted (failed ∷ more) = accepted more
accepted (message bytes ∷ more) = elim (decode bytes zero_order) [
  | decoded x ↦ x ∷ accepted more
  | rejected ↦ accepted more
  | out_of_bounds ↦ accepted more
]

-- No message makes `decode` read outside it.
abbrev pub AreInside : List Received → Type 0
AreInside [] = Unit {0}
AreInside (disconnected ∷ more) = AreInside more
AreInside (failed ∷ more) = AreInside more
AreInside (message bytes ∷ more) = (decode bytes zero_order ≢ out_of_bounds) × AreInside more

IsValid-storage :
    (capacity : ℕ) (p : ObjectPool Order) (h : ℕ → Order)
    → IsValid capacity p
    → IsValid capacity (record p { storage = h })
IsValid-storage capacity p h v = record {
  sized = v.sized;
  within = v.within;
  distinct = v.distinct;
  in_pool = v.in_pool;
}

-- A state with a valid pool after this many more slots were taken and these orders went on.
pub record Delivered (capacity : ℕ) (r : Receiver) (orders : List Order) (out : Option Receiver)
    : Type 0 where
  pub after : Receiver
  pub returns : out ≡ some after
  pub sent : after.to_engine ≡ r.to_engine ++ orders
  pub kept : used after.pool ≡ used r.pool + length orders
  pub valid : IsValid capacity after.pool

module _ (capacity : ℕ) (bytes : List ℕ) (r : Receiver) (ok : IsValid capacity r.pool) where
  -- With no free slot the message is dropped.
  receive_message-full :
      capacity ≤ used r.pool → Delivered capacity r [] (receive_message capacity bytes r)
  unfolding receive_message
  receive_message-full full = elim (allocate_lem capacity zero_order r.pool ok) [
    | inl (h, none_free) ↦ record {
      after = r;
      returns = ground (arith, none_free);
      sent = sym (append-nil r.to_engine);
      kept = omega arith;
      valid = ok;
    }
    | inr (h, rest) ↦ absurd (omega (arith, full, h))
  ]

  -- A message that decodes takes a slot and keeps it.
  receive_message-decoded :
      (x : Order)
      → used r.pool < capacity
      → decode bytes zero_order ≡ decoded x
      → Delivered capacity r (x ∷ []) (receive_message capacity bytes r)
  unfolding receive_message used
  receive_message-decoded x room found = elim (allocate_lem capacity zero_order r.pool ok) [
    | inl (h, none_free) ↦ absurd (omega (arith, room, h))
    | inr (h, (a, q, took_is, took)) ↦
        let here : decode bytes (q.storage a) ≡ decoded x = ap (decode bytes) took.holds ∙ found in
        record {
          after = record {
            pool = record q { storage = update q.storage a x };
            to_engine = r.to_engine ++ (x ∷ []);
          };
          returns = ground (arith, took_is, here);
          sent = refl;
          kept = omega (arith, took.counted);
          valid = IsValid-storage capacity q (update q.storage a x) took.valid;
        }
  ]

  -- A message that does not decode gives its slot back.
  receive_message-rejected :
      used r.pool < capacity
      → decode bytes zero_order ≡ rejected
      → Delivered capacity r [] (receive_message capacity bytes r)
  unfolding receive_message
  receive_message-rejected room found = elim (allocate_lem capacity zero_order r.pool ok) [
    | inl (h, none_free) ↦ absurd (omega (arith, room, h))
    | inr (h, (a, q, took_is, took)) ↦
        let here : decode bytes (q.storage a) ≡ rejected = ap (decode bytes) took.holds ∙ found in
        let back =
          deallocate_lem capacity q a took.valid (omega (arith, took.counted)) took.in_pool
            took.now_taken in
        record {
          after = record r { pool = deallocate (some a) q };
          returns = ground (arith, took_is, here);
          sent = sym (append-nil r.to_engine);
          kept = omega (arith, took.counted, back.counted);
          valid = back.valid;
        }
  ]

-- A message and then the others.
Delivered-then :
    (capacity : ℕ) (bytes : List ℕ) (more : List Received) (r : Receiver) (xs ys : List Order)
    (d : Delivered capacity r xs (receive_message capacity bytes r))
    → Delivered capacity d.after ys (recv_client capacity more d.after)
    → Delivered capacity r (xs ++ ys) (recv_client capacity (message bytes ∷ more) r)
unfolding recv_client
Delivered-then capacity bytes more r xs ys d l = record {
  after = l.after;
  returns = ground (arith, d.returns, l.returns);
  sent = l.sent ∙ ap (λ t. t ++ ys) d.sent ∙ append_assoc r.to_engine xs ys;
  kept = omega (arith, l.kept, d.kept, length-append xs ys);
  valid = l.valid;
}

accepted-message :
    (bytes : List ℕ) (more : List Received) (d : Decoded)
    → decode bytes zero_order ≡ d
    → accepted (message bytes ∷ more) ≡ (elim d [
      | decoded x ↦ x ∷ accepted more
      | rejected ↦ accepted more
      | out_of_bounds ↦ accepted more
    ])
unfolding accepted
accepted-message bytes more d e =
    ap
      (λ x. elim x [
        | decoded x ↦ x ∷ accepted more
        | rejected ↦ accepted more
        | out_of_bounds ↦ accepted more
      ])
      e

take-nil : (n : ℕ) → take {A = Order} n [] ≡ []
take-nil zero = refl
take-nil (suc n) = refl

take-none : (n : ℕ) (xs : List Order) → n ≡ 0 → take n xs ≡ []
take-none n xs e = rw e refl

take-cons : (m n : ℕ) (x : Order) (xs : List Order) → m ≡ suc n → take m (x ∷ xs) ≡ x ∷ take n xs
take-cons m n x xs e = rw e refl

-- A message when there is a free slot.
message-room :
    (capacity : ℕ) (bytes : List ℕ) (more : List Received) (r : Receiver)
    → IsValid capacity r.pool
    → used r.pool < capacity
    → decode bytes zero_order ≢ out_of_bounds
    → ((r' : Receiver)
        → IsValid capacity r'.pool
        → Delivered capacity r'
            (take (capacity - used r'.pool) (accepted more))
            (recv_client capacity more r'))
    → (d : Decoded) → decode bytes zero_order ≡ d
    → Delivered capacity r
        (take (capacity - used r.pool) (accepted (message bytes ∷ more)))
        (recv_client capacity (message bytes ∷ more) r)
message-room capacity bytes more r ok room inside later (decoded x) e =
    let d = receive_message-decoded capacity bytes r ok x room e in
    let one_less : capacity - used r.pool ≡ suc (capacity - used d.after.pool) =
      omega (arith, d.kept, room) in
    subst (λ l. Delivered capacity r l (recv_client capacity (message bytes ∷ more) r))
      (sym (
        ap (take (capacity - used r.pool)) (accepted-message bytes more (decoded x) e)
        ∙ take-cons (capacity - used r.pool) (capacity - used d.after.pool) x (accepted more)
            one_less))
      (Delivered-then capacity bytes more r (x ∷ []) _ d (later d.after d.valid))
message-room capacity bytes more r ok room inside later rejected e =
    let d = receive_message-rejected capacity bytes r ok room e in
    let as_much : capacity - used d.after.pool ≡ capacity - used r.pool = omega (arith, d.kept) in
    subst (λ l. Delivered capacity r l (recv_client capacity (message bytes ∷ more) r))
      (ap (λ n. take n (accepted more)) as_much
        ∙ ap (take (capacity - used r.pool)) (sym (accepted-message bytes more rejected e)))
      (Delivered-then capacity bytes more r [] _ d (later d.after d.valid))
message-room capacity bytes more r ok room inside later out_of_bounds e = absurd (inside e)

nothing_more :
    (capacity : ℕ) (r : Receiver) (orders : List Order) (out : Option Receiver)
    → IsValid capacity r.pool
    → orders ≡ []
    → out ≡ some r
    → Delivered capacity r orders out
nothing_more capacity r orders out ok none_left e = record {
  after = r;
  returns = e;
  sent = rw none_left (sym (append-nil r.to_engine));
  kept = rw none_left (omega arith);
  valid = ok;
}

-- The messages of a connection, when none makes `decode` read outside it: exactly the orders of those
-- that decode go on to the engine, in their order, until the pool has no free slot. Each of them
-- keeps a slot for good, and all that come later are dropped.
pub recv_client_lem :
    (capacity : ℕ) (msgs : List Received) (r : Receiver)
    → IsValid capacity r.pool
    → AreInside msgs
    → Delivered capacity r
        (take (capacity - used r.pool) (accepted msgs))
        (recv_client capacity msgs r)
unfolding recv_client accepted
recv_client_lem capacity [] r ok inside =
    nothing_more capacity r _ _ ok (take-nil (capacity - used r.pool)) refl
recv_client_lem capacity (disconnected ∷ more) r ok inside =
    nothing_more capacity r _ _ ok (take-nil (capacity - used r.pool)) refl
recv_client_lem capacity (failed ∷ more) r ok inside = recv_client_lem capacity more r ok inside
recv_client_lem capacity (message bytes ∷ more) r ok inside =
    let go = λ (xs : List Order) (d : Delivered capacity r xs (receive_message capacity bytes r)).
      Delivered-then capacity bytes more r xs _ d
        (recv_client_lem capacity more d.after d.valid inside.1) in
    elim (Bool-cases (ltb (used r.pool) capacity)) [
      | inr full ↦
          let none_free : capacity ≤ used r.pool = ground arith in
          let d = receive_message-full capacity bytes r ok none_free in
          subst (λ l. Delivered capacity r l (recv_client capacity (message bytes ∷ more) r))
            (take-none (capacity - used d.after.pool) (accepted more)
                (omega (arith, d.kept, none_free))
              ∙ sym (
                  take-none (capacity - used r.pool) (accepted (message bytes ∷ more))
                    (omega arith)))
            (go [] d)
      | inl room ↦
          message-room capacity bytes more r ok (ground arith) inside.0
            (λ r' ok'. recv_client_lem capacity more r' ok' inside.1) (decode bytes zero_order) refl
    ]
