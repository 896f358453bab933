-- ===== src/Net/Socket/Program.antt =====
-- A program of sockets: its calls, and what it means that each open descriptor has one owner.
use low_latency_project.Prelude.{
  ℕ, ◌≡◌, Bool, true, false, Option, none, some, List, [], ◌∷◌, update, ◌==◌,
}
use low_latency_project.Prelude.Int.{ℤ}
use low_latency_project.Net.Socket.{
  SocketHandle, Descriptors, tcp_bind, tcp_connect, tcp_accept, tcp_close, move_construct,
  move_assign, udp_bind, udp_set_nonblocking, udp_sendto, udp_recvfrom, udp_close,
}

-- The sockets of a program by the numbers of their variables. A variable without an object is as one
-- without a descriptor.
pub record Process : Type 0 where
  pub handles : ℕ → SocketHandle
  pub is_open : Descriptors

pub data Call : Type 0 where
  bind_tcp : ℕ → Option ℕ → Bool → Call
  connect_tcp : ℕ → Option ℕ → Bool → Bool → Call
  accept_into : ℕ → Option ℕ → Call
  close_tcp : ℕ → Call
  construct_from : ℕ → ℕ → Call
  assign_from : ℕ → ℕ → Call
  bind_udp : ℕ → Option ℕ → Bool → Call
  nonblocking_udp : ℕ → Option ℕ → Option ℕ → Bool → Call
  send_udp : ℕ → Option ℕ → ℤ → Call
  receive_udp : ℕ → Option ℕ → ℤ → Call
  close_udp : ℕ → Call

-- The variable gets its new handle.
abbrev pub assign_handle : Process → ℕ → SocketHandle → Descriptors → Process
assign_handle p i fd is_open = record { handles = update p.handles i fd; is_open = is_open }

unfoldable pub step : Call → Process → Process
step (bind_tcp i created bound) p =
    let (_, s, o) = tcp_bind created bound (record { fd = p.handles i }) p.is_open in
    assign_handle p i s.fd o
step (connect_tcp i created parsed connected) p =
    let (_, s, o) = tcp_connect created parsed connected (record { fd = p.handles i }) p.is_open in
    assign_handle p i s.fd o
step (accept_into j accepted) p =
    let (s, o) = tcp_accept accepted p.is_open in assign_handle p j s.fd o
step (close_tcp i) p =
    let (s, o) = tcp_close (record { fd = p.handles i }) p.is_open in assign_handle p i s.fd o
step (construct_from j i) p =
    let (s, other) = move_construct (record { fd = p.handles i }) in
    record p { handles = update (update p.handles i other.fd) j s.fd }
step (assign_from j i) p =
    let (handles, o) = move_assign j i p.handles p.is_open in
    record { handles = handles; is_open = o }
step (bind_udp i created bound) p =
    let (_, s, o) = udp_bind created bound (record { fd = p.handles i }) p.is_open in
    assign_handle p i s.fd o
step (nonblocking_udp i created flags set) p =
    let (_, s, o) = udp_set_nonblocking created flags set (record { fd = p.handles i }) p.is_open in
    assign_handle p i s.fd o
step (send_udp i created n) p =
    let (_, s, o) = udp_sendto created n (record { fd = p.handles i }) p.is_open in
    assign_handle p i s.fd o
step (receive_udp i created n) p =
    let (_, s, o) = udp_recvfrom created n (record { fd = p.handles i }) p.is_open in
    assign_handle p i s.fd o
step (close_udp i) p =
    let (s, o) = udp_close (record { fd = p.handles i }) p.is_open in assign_handle p i s.fd o

-- The system hands out descriptors that are not open.
abbrev pub IsNew : Option ℕ → Process → Type 0
IsNew none p = Unit {0}
IsNew (some d) p = p.is_open d ≡ false

-- What the system and the language promise of a call: an object that is made has a variable of its own.
abbrev pub IsAllowed : Call → Process → Type 0
IsAllowed (bind_tcp i created bound) p = IsNew created p
IsAllowed (connect_tcp i created parsed connected) p = IsNew created p
IsAllowed (accept_into j accepted) p = IsNew accepted p × (p.handles j ≡ none)
IsAllowed (close_tcp i) p = Unit {0}
IsAllowed (construct_from j i) p = ((j == i) ≡ false) × (p.handles j ≡ none)
IsAllowed (assign_from j i) p = Unit {0}
IsAllowed (bind_udp i created bound) p = IsNew created p
IsAllowed (nonblocking_udp i created flags set) p = IsNew created p
IsAllowed (send_udp i created n) p = IsNew created p
IsAllowed (receive_udp i created n) p = IsNew created p
IsAllowed (close_udp i) p = Unit {0}

-- Two variables never hold one descriptor, what they hold is open, and what is open is held.
pub record IsOwned (p : Process) : Type 0 where
  pub apart : (i j d : ℕ) → p.handles i ≡ some d → p.handles j ≡ some d → (i == j) ≡ true
  pub live : (i d : ℕ) → p.handles i ≡ some d → p.is_open d ≡ true
  pub owner : (d : ℕ) → p.is_open d ≡ true → (i : ℕ) × (p.handles i ≡ some d)

unfoldable pub perform : List Call → Process → Process
perform [] p = p
perform (c ∷ calls) p = perform calls (step c p)

abbrev pub AreAllowed : List Call → Process → Type 0
AreAllowed [] p = Unit {0}
AreAllowed (c ∷ calls) p = IsAllowed c p × AreAllowed calls (step c p)

-- Nothing is open.
abbrev pub new_process : Process
new_process = record { handles = λ _. none; is_open = λ _. false }
