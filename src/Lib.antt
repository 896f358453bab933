-- ===== src/Lib.antt =====
-- A verification library for the low latency trading engine of this repository: the order book, its
-- matching engine, the memory pool and the ring between the threads, the risk checks, the session,
-- the journal, the sockets, and the measuring and parsing parts around them.
--
-- The parts and their files:
--   Prelude           numbers, lists, signed and machine integers, text, and maps as sorted lists.
--   Core/Types        include/core/types.hpp: ids, prices, quantities, sides.
--   Core/Pool         include/core/memory.hpp, `ObjectPool`: `allocate` and `deallocate` on a free list
--                     of slots. A pointer is the index of its slot, `nullptr` is `none`.
--   Core/Ring         include/core/ring_buffer.hpp, `RingBuffer`: `push`, `pop`, `size`, `empty` as whole
--                     calls, and against a bounded queue (Ring/Queue, Ring/Window, Ring/Refine).
--   Core/Spsc         the same calls between two threads, as a step relation with one shared access
--                     per step. Acquire and release are read as one order of the accesses.
--   Order/Record      include/order/order.hpp: the order; the heap is the storage of the pool.
--   Order/Level       include/order/price_level.hpp, `PriceLevel`: `push_back` and `remove` on the
--                     intrusive list; Level/Links, Level/Queue and Level/Removal read it as a queue.
--   Order/Book        include/order/order_book.hpp and src/order/order_book.cpp, `OrderBook`: all its
--                     operations. `std::map` is a sorted list of entries, an iterator is a key.
--   Order/Shape, Accounts, Listed, Invariant, Insert, Delete, Unlist, Cancel, Add, Modify
--                     the invariant of a book at rest (`IsBook`), where a new order goes, what is
--                     left when one goes away, and the operations of the book on that.
--   Engine/Matching   src/engine/matching_engine.cpp, `MatchingEngine`: `match` as `match_order`, its
--                     loop as `match_loop`, one trade as `match_round`. Priority is the specification,
--                     Start, Partial, Whole, Loop, Rest, Finish and Refine lead from the code to it.
--   Engine/Risk       include/engine/risk.hpp, `RiskChecker`.
--   Engine/Session    include/engine/session.hpp, `Session`.
--   Engine/Run        src/engine/engine.cpp, `Engine::run`: a round of its loop, which pops an order, asks
--                     the session and the risk checks, matches, and passes the trades on, and any
--                     number of rounds with what arrives between them. Run/Stepped and Run/Keeps are a round,
--                     Run/Ids, Run/Awaiting and Run/Serves all of them, Run/Journalled what they
--                     journal, Run/Position what they do to the position and Run/Counted what they count.
--                     Run/Always is the induction over the loop.
--   Engine/Network    src/engine/engine.cpp, `recv_loop` and `send_loop` for one client,
--                     and the way of the trades from the loop to the client (Network/Delivered).
--   Engine/Synthetic  src/engine/engine.cpp, `Engine::start`: the thread that makes synthetic orders, and that
--                     it stops.
--   Net/Wire, Codec   include/net/codec.hpp: the messages, `encode_new_order`, `encode_trade_report` and
--                     `decode` on lists of bytes; a read outside them is a result of its own.
--   Net/Socket        include/net/socket.hpp and src/net/socket.cpp, `TcpSocket` and `UdpSocket`: the
--                     handles, and who owns them (Socket/Program, Socket/Owners).
--   Market/Feed       include/market/feed_handler.hpp, `FeedHandler`: the handling of a datagram.
--   Metrics/Latency   include/metrics/latency_tracker.hpp, `LatencyTracker`: the histogram. What is
--                     computed in `double` is an argument.
--   Metrics/Http      src/metrics/http_server.cpp, `HttpServer::run`: the answer to a request
--                     (Http/Request, Http/Json and Http/Response read it as a client does).
--   Demo              src/demo/synthetic_feed.cpp, `synthetic_feed`.
--   Persistence       include/persistence/journal.hpp and src/persistence/journal.cpp, `Journal`, in its
--                     POSIX build. Journal/Blocks is what one block gives to `replay`, Journal/Pack and
--                     Journal/Log where the calls put their records, Journal/Calls the engine's calls.
--   Examples          the theorems on concrete inputs.
--
-- The matching engine works on the book: it takes the incoming order's slot from the book's pool,
-- trades against the levels of the other side through the shared heap, and rests what remains in the
-- book. Unsigned numbers are natural numbers whose wrap-around is written out where the code computes;
-- prices are integers. Signed sums that overflow, which C++ leaves undefined, wrap around here. A read
-- behind the pool's free list gives a pointer outside the pool. The clock's readings are arguments,
-- and so is the capacity of the pool in the operations that look at it; the code's is 65536.
--
-- The loop of `match` runs on fuel, one more than the slots in use: every trade but the last takes an
-- order out of the book.
--
-- `replay` reads a block in at most 216 rounds, for each goes on by a header and a byte. A new journal's
-- buffer is zero, as `std::make_unique` leaves it. A write of a block that fails ends the program by an
-- assertion, and is left out.
--
-- The feed waits for room on fuel, and `none` is that it still waits: two attempts for an order are
-- enough when another thread takes an order between them; the thread of synthetic orders needs as many as
-- there are looks at the flag until it is false, and one. The system calls of the sockets and the
-- bytes that `recv` gives are arguments.
--
-- Not modelled: the threads, their start and stop, and the loops that accept clients; the clocks; the
-- options of the sockets and the bytes they move; the main programs, the latency report of the demo,
-- which is not called, and logging; the hardware memory model, of which the ring uses only an order of
-- its accesses; accesses of several threads to the pool, which the source does not guard; padding and
-- alignment. Destructors do nothing, and a returned slot keeps its bytes.
pub mod Prelude
pub mod Core
pub mod Order
pub mod Engine
pub mod Examples
pub mod Demo
pub mod Market
pub mod Metrics
pub mod Net
pub mod Persistence
