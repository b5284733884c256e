-- ===== src/Echo.antt =====
-- example/server_service.hpp: the echo server. This file has the receiver of its connections,
-- `TcpEchoListener`; the children have its laws and the service.
pub mod Laws
pub mod Service
pub mod Life
pub mod Process
pub mod Remote
pub mod Accepting
pub mod Serving
pub mod Lifetime
pub mod Errors
pub mod HungUp
pub mod Typed
pub mod Talk
use cpp_readline.Common.{
  ℕ, ◌+◌, ◌%◌, ◌^◌, List, ◌++◌, Bool, true, false, if◌then◌else◌, ltb, ◌==◌, length, take, drop,
  Option, none, some, ℤ, pos, negsuc, Result, ok, ◌>>=◌, add_u64, add_u32,
}
use cpp_readline.Memory.{Cell}
use cpp_readline.Sys.{Sys}
use cpp_readline.Epoll.{Env, close}
use cpp_readline.Socket.{Socket}
use cpp_readline.Stream.Tx.{write_msg}
use cpp_readline.Stream.Rx.{Read, read_msg}
use cpp_readline.Tcp.{set_listener}

-- The fields, and `buff`, the static array of `DoHandle`. The constructor sets `last_uptime` alone.
pub record EchoListener : Type 0 where
  pub buff : List Cell
  pub read_bytes : ℕ
  pub read_pkt : ℕ
  pub last_uptime : ℕ

-- what `ReadMsg` leaves in `buff`
fill : EchoListener → Option (List Cell) → EchoListener
fill e none = e
fill e (some msg) = record e { buff = msg ++ drop (length msg) e.buff }

count_read : EchoListener → ℕ → EchoListener
count_read e len =
    if ltb 0 len
    then record e { read_bytes = add_u64 e.read_bytes len; read_pkt = add_u64 e.read_pkt 1 }
    else e

-- the report every three seconds; `now` and `later` are two calls of `GetTime`
report : ℕ → ℕ → EchoListener → EchoListener
report now later e =
    let up = if e.last_uptime == 0 then now else e.last_uptime in
    record e { last_uptime = if ltb (add_u32 up 3) later then later else up }

module _ (sys : Sys) where
  abbrev pub Echoed : Type 0
  Echoed = Bool × EchoListener × Socket × Env sys

  -- `DoHandle` from its second use of `len` on
  pub echo_back : EchoListener → ℕ → Socket → Env sys → Result Echoed
  echo_back e len s env =
      if ltb 0 len
      then (write_msg sys s (some (take len e.buff)) env >>= λ w. ok (true, e, w.1, w.2))
      else ok (true, e, s, env)

  pub after_echo_read : ℕ → ℕ → EchoListener → Read × Socket × Env sys → Result Echoed
  unfolding fill count_read report echo_back
  after_echo_read now later e ((negsuc n, msg), s, env) =
      close sys s.listener env >>= λ r. ok (false, e, set_listener s r.0, r.1)
  after_echo_read now later e ((pos len, msg), s, env) =
      echo_back (report now later (count_read (fill e msg) len)) len s env

  -- `TcpEchoListener::DoHandle`
  unfoldable pub echo : ℕ → ℕ → EchoListener → Socket → Env sys → Result Echoed
  unfolding after_echo_read
  echo now later e s env = read_msg sys false s 30 env >>= after_echo_read now later e
