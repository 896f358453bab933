-- ===== src/Net/Socket.antt =====
-- include/net/socket.hpp and src/net/socket.cpp, as they are built for POSIX: `TcpSocket` and
-- `UdpSocket`. What the system calls return is an argument; `none` is `INVALID`, -1. The open
-- descriptors of the process are a test on numbers.
pub mod Program
pub mod Owners
use low_latency_project.Prelude.{
  ℕ, Bool, true, false, Option, none, some, if◌then◌else◌, update, ◌==◌,
}
use low_latency_project.Prelude.Int.{ℤ, negsuc}

abbrev pub SocketHandle : Type 0
SocketHandle = Option ℕ

abbrev pub Descriptors : Type 0
Descriptors = ℕ → Bool

pub record TcpSocket : Type 0 where
  pub fd : SocketHandle

pub record UdpSocket : Type 0 where
  pub fd : SocketHandle

-- `if (fd_ == INVALID) fd_ = socket(...)`
unfoldable pub create_if_invalid :
    Option ℕ → SocketHandle → Descriptors → SocketHandle × Descriptors
create_if_invalid created (some d) is_open = (some d, is_open)
create_if_invalid none none is_open = (none, is_open)
create_if_invalid (some d) none is_open = (some d, update is_open d true)

unfoldable pub valid : SocketHandle → Bool
valid none = false
valid (some d) = true

-- `if (fd_ != INVALID) { ::close(fd_); fd_ = INVALID; }`, the descriptor that is closed first.
unfoldable pub close_handle : SocketHandle → Descriptors → Option ℕ × SocketHandle × Descriptors
close_handle none is_open = (none, none, is_open)
close_handle (some d) is_open = (some d, none, update is_open d false)

unfoldable pub tcp_bind : Option ℕ → Bool → TcpSocket → Descriptors → Bool × TcpSocket × Descriptors
unfolding create_if_invalid valid
tcp_bind created bound s is_open =
    let (fd, now_open) = create_if_invalid created s.fd is_open in
    (if valid fd then bound else false, record { fd = fd }, now_open)

-- `parsed` is `inet_pton`.
unfoldable pub tcp_connect :
    Option ℕ → Bool → Bool → TcpSocket → Descriptors → Bool × TcpSocket × Descriptors
unfolding create_if_invalid valid
tcp_connect created parsed connected s is_open =
    let (fd, now_open) = create_if_invalid created s.fd is_open in
    (
      if valid fd then (if parsed then connected else false) else false,
      record { fd = fd },
      now_open,
    )

-- The result of `::accept`, in a new object.
unfoldable pub tcp_accept : Option ℕ → Descriptors → TcpSocket × Descriptors
tcp_accept none is_open = (record { fd = none }, is_open)
tcp_accept (some d) is_open = (record { fd = some d }, update is_open d true)

-- `fcntl(F_GETFL)`, and whether `fcntl(F_SETFL)` gave 0.
unfoldable pub set_nonblocking : Option ℕ → Bool → Bool
set_nonblocking none set = false
set_nonblocking (some flags) set = set

unfoldable pub tcp_close : TcpSocket → Descriptors → TcpSocket × Descriptors
unfolding close_handle
tcp_close s is_open =
    let (closed, fd, now_open) = close_handle s.fd is_open in (record { fd = fd }, now_open)

-- The new object, and the one that it was made of.
unfoldable pub move_construct : TcpSocket → TcpSocket × TcpSocket
move_construct other = (record { fd = other.fd }, record { fd = none })

-- `*this = std::move(other)`, for the objects at two addresses, which may be the same: what `fd_` is in the
-- objects, and the open descriptors.
unfoldable pub move_assign :
    ℕ → ℕ → (ℕ → SocketHandle) → Descriptors → (ℕ → SocketHandle) × Descriptors
unfolding tcp_close
move_assign self other fd is_open =
    let (closed, now_open) = tcp_close (record { fd = fd self }) is_open in
    let fd1 = update fd self closed.fd in
    let fd2 = update fd1 self (fd1 other) in
    if self == other then (fd, is_open) else (update fd2 other none, now_open)

unfoldable pub udp_create : Option ℕ → UdpSocket → Descriptors → Bool × UdpSocket × Descriptors
unfolding create_if_invalid valid
udp_create created s is_open =
    let (fd, now_open) = create_if_invalid created s.fd is_open in
    (valid fd, record { fd = fd }, now_open)

unfoldable pub udp_bind : Option ℕ → Bool → UdpSocket → Descriptors → Bool × UdpSocket × Descriptors
unfolding udp_create
udp_bind created bound s is_open =
    let (ok, s1, now_open) = udp_create created s is_open in
    (if ok then bound else false, s1, now_open)

unfoldable pub udp_set_nonblocking :
    Option ℕ → Option ℕ → Bool → UdpSocket → Descriptors → Bool × UdpSocket × Descriptors
unfolding udp_create set_nonblocking
udp_set_nonblocking created flags set s is_open =
    let (ok, s1, now_open) = udp_create created s is_open in
    (if ok then set_nonblocking flags set else false, s1, now_open)

-- `n` is what `::sendto` or `::recvfrom` returned.
unfoldable pub udp_sendto : Option ℕ → ℤ → UdpSocket → Descriptors → ℤ × UdpSocket × Descriptors
unfolding udp_create
udp_sendto created n s is_open =
    let (ok, s1, now_open) = udp_create created s is_open in
    (if ok then n else negsuc 0, s1, now_open)

unfoldable pub udp_recvfrom : Option ℕ → ℤ → UdpSocket → Descriptors → ℤ × UdpSocket × Descriptors
unfolding udp_create
udp_recvfrom created n s is_open =
    let (ok, s1, now_open) = udp_create created s is_open in
    (if ok then n else negsuc 0, s1, now_open)

unfoldable pub udp_close : UdpSocket → Descriptors → UdpSocket × Descriptors
unfolding close_handle
udp_close s is_open =
    let (closed, fd, now_open) = close_handle s.fd is_open in (record { fd = fd }, now_open)
