-- ===== src/Echo/Service.antt =====
-- example/server_service.hpp: the echo server and its service, `TcpEchoServer` and `TcpEchoService`.
-- `OnAccept` keeps a copy of each stream that it is given: the copy has the descriptor and the buffers
-- of the stream. The receivers are in the parent.
use Prim.Native.String.{String}
use cpp_readline.Common.{
  ℕ, Option, none, some, Bool, true, false, List, [], ◌∷◌, ◌++◌, Result, ok, ◌>>=◌,
}
use cpp_readline.Sys.{Sys}
use cpp_readline.Epoll.{Env}
use cpp_readline.Socket.{Socket}
use cpp_readline.Tcp.{open_server, Opened}
use cpp_readline.Tcp.Accept.{new_stream}
use cpp_readline.Tcp.Release.{delete_stream, delete_streams}

pub record EchoServer : Type 0 where
  pub socket : Socket
  -- `streams_`
  pub streams : List Socket

pub record EchoService : Type 0 where
  pub server : Option EchoServer
  pub address : String
  pub port : ℕ

-- `TcpEchoService(address, port)`
abbrev pub new_service : String → ℕ → EchoService
new_service address port = record { server = none; address = address; port = port }

-- `TcpEchoServer::OnAccept`
unfoldable pub on_accept : EchoServer → Socket → Bool × EchoServer
on_accept sv s = (true, record sv { streams = sv.streams ++ (s ∷ []) })

module _ (sys : Sys) where
  abbrev pub Served : Type 0
  Served = Bool × EchoService × Env sys

  -- `delete server_`
  unfoldable pub delete_server : EchoServer → Env sys → Result (Env sys)
  delete_server sv env = do
    env' ← delete_streams sys sv.streams env
    delete_stream sys sv.socket env'

  -- `StartServer` after `OpenServer`
  unfoldable pub after_open : EchoService → Opened sys → Result Served
  unfolding delete_server
  after_open v (true, s, env) =
      ok (true, record v { server = some (record { socket = s; streams = [] }) }, env)
  after_open v (false, s, env) = do
    env' ← delete_server (record { socket = s; streams = [] }) env
    ok (false, record v { server = none }, env')

  -- `StartServer`; the first two parameters are those of the constructor of a stream
  unfoldable pub start_echo :
      (ℕ → ℕ) → (now garbage : ℕ) → String → ℕ → EchoService → Env sys → Result Served
  unfolding after_open
  start_echo tx_rate now garbage addr port v env = elim v.server [
    | some sv ↦ ok (false, v, env)
    | none ↦ do
      s ← new_stream tx_rate now garbage garbage 8196
      r ← open_server sys s addr port env
      after_open (record v { address = addr; port = port }) r
  ]

  -- `StopServer`
  unfoldable pub stop_echo : EchoService → Env sys → Result Served
  unfolding delete_server
  stop_echo v env = elim v.server [
    | none ↦ ok (false, v, env)
    | some sv ↦ do env' ← delete_server sv env; ok (true, record v { server = none }, env')
  ]
