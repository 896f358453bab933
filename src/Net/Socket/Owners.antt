-- ===== src/Net/Socket/Owners.antt =====
-- Whatever calls a program makes of its sockets, each open descriptor has one owner.
use mathlib.Core.Path.{subst, fun_ext}
use low_latency_project.Prelude.{
  ℕ, ◌≡◌, refl, sym, ap, ◌∙◌, true, false, Option, none, some, List, [], ◌∷◌, update, ◌==◌, arith,
  inl, inr, Bool-cases, ==_iff, ==_self,
}
use low_latency_project.Net.Socket.{
  SocketHandle, Descriptors, tcp_bind, tcp_connect, tcp_accept, tcp_close, move_construct,
  move_assign, udp_create, udp_bind, udp_set_nonblocking, udp_sendto, udp_recvfrom, udp_close,
  create_if_invalid, close_handle,
}
use low_latency_project.Net.Socket.Program.{
  Process, assign_handle, step, IsOwned, IsAllowed, IsNew, perform, AreAllowed, new_process, Call,
  bind_tcp, connect_tcp, accept_into, close_tcp, construct_from, assign_from, bind_udp,
  nonblocking_udp, send_udp, receive_udp, close_udp,
}

module _ (p : Process) (own : IsOwned p) where
  -- A handle written back as it was.
  same-IsOwned :
      (i : ℕ) (h : SocketHandle) → p.handles i ≡ h → IsOwned (assign_handle p i h p.is_open)
  same-IsOwned i h e =
      let same : update p.handles i h ≡ p.handles = fun_ext (λ j. same_at j) in
      subst (λ (hs : ℕ → SocketHandle). IsOwned (record { handles = hs; is_open = p.is_open }))
        (sym same) (record { apart = own.apart; live = own.live; owner = own.owner })
    where
      same_at : (j : ℕ) → update p.handles i h j ≡ p.handles j
      same_at j = elim (Bool-cases (j == i)) [
        | inl here ↦ rw here (sym e ∙ ap p.handles (sym ((==_iff j i).0 here)))
        | inr there ↦ rw there refl
      ]

  -- A new descriptor for a variable without one.
  opened-IsOwned :
      (i d : ℕ)
      → p.handles i ≡ none
      → p.is_open d ≡ false
      → IsOwned (assign_handle p i (some d) (update p.is_open d true))
  opened-IsOwned i d empty new = record {
    apart = λ j k x hj hk. ground (arith, own.apart j k x, own.live j x, own.live k x, empty, new);
    live = λ j x hj. ground (arith, own.live j x);
    owner = λ x o. elim (Bool-cases (x == d)) [
      | inl here ↦ (i, ground (arith, here))
      | inr there ↦
          let (j, held) = own.owner x (ground (arith, there, o)) in (j, ground (arith, held, empty))
    ];
  }

  -- The descriptor of a variable is closed.
  closed-IsOwned :
      (i d : ℕ) → p.handles i ≡ some d → IsOwned (assign_handle p i none (update p.is_open d false))
  closed-IsOwned i d held = record {
    apart = λ j k x hj hk. ground (arith, own.apart j k x);
    live = λ j x hj. ground (arith, own.live j x, own.apart i j d, held);
    owner = λ x o.
        let (j, holds) = own.owner x (ground (arith, o)) in
        (j, ground (arith, holds, own.apart i j d, held, o));
  }

  -- A handle goes from one variable to one without a descriptor.
  moved-IsOwned :
      (j i : ℕ)
      → (j == i) ≡ false
      → p.handles j ≡ none
      → IsOwned (record p { handles = update (update p.handles i none) j (p.handles i) })
  moved-IsOwned j i other empty = record {
    apart = λ k l x hk hl.
        ground (arith, own.apart k l x, own.apart i l x, own.apart k i x, own.apart i i x, empty);
    live = λ k x hk. ground (arith, own.live k x, own.live i x);
    owner = λ x o.
        let (k, holds) = own.owner x o in
        elim (Bool-cases (k == i)) [
          | inl here ↦ (j, rw (==_self j) (sym (ap p.handles ((==_iff k i).0 here)) ∙ holds))
          | inr there ↦ (k, ground (arith, holds, there, empty))
        ];
  }

  created_at :
      (i : ℕ) (created : Option ℕ) (h : SocketHandle)
      → p.handles i ≡ h
      → IsNew created p
      → (let (fd, o) = create_if_invalid created h p.is_open in IsOwned (assign_handle p i fd o))
  unfolding create_if_invalid
  created_at i none none e new = same-IsOwned i none e
  created_at i (some d) none e new = opened-IsOwned i d e new
  created_at i none (some c) e new = same-IsOwned i (some c) e
  created_at i (some d) (some c) e new = same-IsOwned i (some c) e

  closed_at :
      (i : ℕ) (h : SocketHandle)
      → p.handles i ≡ h
      → (let (_, fd, o) = close_handle h p.is_open in IsOwned (assign_handle p i fd o))
  unfolding close_handle
  closed_at i none e = same-IsOwned i none e
  closed_at i (some d) e = closed-IsOwned i d e

  accepted_at :
      (j : ℕ) (accepted : Option ℕ)
      → p.handles j ≡ none
      → IsNew accepted p
      → (let (s, o) = tcp_accept accepted p.is_open in IsOwned (assign_handle p j s.fd o))
  unfolding tcp_accept
  accepted_at j none empty new = same-IsOwned j none empty
  accepted_at j (some d) empty new = opened-IsOwned j d empty new

handle-closed : (h : SocketHandle) (o : Descriptors) → (close_handle h o).1 ≡ none
unfolding close_handle
handle-closed none o = refl
handle-closed (some d) o = refl

-- The assigned variable closes its own descriptor first, unless it is assigned to itself.
assigned-IsOwned : (p : Process) (j i : ℕ) → IsOwned p → IsOwned (step (assign_from j i) p)
unfolding step move_assign
assigned-IsOwned p j i own = elim (Bool-cases (j == i)) [
  | inl itself ↦ rw itself (record { apart = own.apart; live = own.live; owner = own.owner })
  | inr other ↦
      let (_, fd, o) = close_handle (p.handles j) p.is_open in
      let p1 : Process = assign_handle p j fd o in
      let empty : p1.handles j ≡ none = rw (==_self j) (handle-closed (p.handles j) p.is_open) in
      let moved = moved-IsOwned p1 (closed_at p own j (p.handles j) refl) j i other empty in
      rw other (
        subst (λ (hs : ℕ → SocketHandle). IsOwned (record { handles = hs; is_open = o }))
          (fun_ext (λ k. same_at fd k other)) moved)
]
  where
    same_at :
        (fd : SocketHandle) (k : ℕ)
        → (j == i) ≡ false
        → update (update (update p.handles j fd) i none) j (update p.handles j fd i) k
          ≡ update (update (update p.handles j fd) j (update p.handles j fd i)) i none k
    same_at fd k other = ground (arith, other)

-- The assigned object has what the other one had.
assigned_is : (p : Process) (j i : ℕ) → (step (assign_from j i) p).handles j ≡ p.handles i
unfolding step move_assign
assigned_is p j i = elim (Bool-cases (j == i)) [
  | inl itself ↦ rw itself (ap p.handles ((==_iff j i).0 itself))
  | inr other ↦ rw other (ground (arith, other))
]

pub step-IsOwned : (c : Call) (p : Process) → IsOwned p → IsAllowed c p → IsOwned (step c p)
unfolding step tcp_bind tcp_connect tcp_close udp_bind udp_set_nonblocking udp_sendto udp_recvfrom
    udp_close udp_create move_construct
step-IsOwned (bind_tcp i created bound) p own a = created_at p own i created (p.handles i) refl a
step-IsOwned (connect_tcp i created parsed connected) p own a =
    created_at p own i created (p.handles i) refl a
step-IsOwned (accept_into j accepted) p own a = accepted_at p own j accepted a.1 a.0
step-IsOwned (close_tcp i) p own a = closed_at p own i (p.handles i) refl
step-IsOwned (construct_from j i) p own a = moved-IsOwned p own j i a.0 a.1
step-IsOwned (assign_from j i) p own a = assigned-IsOwned p j i own
step-IsOwned (bind_udp i created bound) p own a = created_at p own i created (p.handles i) refl a
step-IsOwned (nonblocking_udp i created flags set) p own a =
    created_at p own i created (p.handles i) refl a
step-IsOwned (send_udp i created n) p own a = created_at p own i created (p.handles i) refl a
step-IsOwned (receive_udp i created n) p own a = created_at p own i created (p.handles i) refl a
step-IsOwned (close_udp i) p own a = closed_at p own i (p.handles i) refl

from_IsOwned :
    (calls : List Call) (p : Process) → IsOwned p → AreAllowed calls p → IsOwned (perform calls p)
unfolding perform
from_IsOwned [] p own a = own
from_IsOwned (c ∷ calls) p own a = from_IsOwned calls (step c p) (step-IsOwned c p own a.0) a.1

-- After any calls on the sockets of a program, in which the system hands out descriptors that are not
-- open and each object that is made has its own variable: no two sockets hold one descriptor, what a
-- socket holds is open, so that no descriptor is closed twice, and every open descriptor is held, so
-- that none leaks; and an assignment then, of an object to itself too, gives the assigned object the
-- handle that the other one has.
pub perform-IsOwned :
    (calls : List Call)
    → AreAllowed calls new_process
    → IsOwned (perform calls new_process)
      × ((j i : ℕ)
          → (step (assign_from j i) (perform calls new_process)).handles j
            ≡ (perform calls new_process).handles i)
perform-IsOwned calls a = (
  from_IsOwned calls new_process
      (record {
        apart = λ i j d p q. cc;
        live = λ i d p. cc;
        owner = λ d p. let clash : ⊥ = cc in absurd clash;
      })
      a,
  assigned_is (perform calls new_process),
)
