-- ===== src/Echo/Life.antt =====
-- example/server_service.hpp: how `StartServer` and `StopServer` leave the service and the descriptors
-- of the process.
use Prim.Native.String.{String}
use cpp_readline.Common.{
  ℕ, suc, ◌+◌, ◌≤◌, length, ◌≡◌, refl, none, some, true, false, [], ℤ, inc, Bool, Result, ok, fault,
  exception, ◌>>=◌, Returns-elim, arith,
}
use cpp_readline.Sys.{Sys, FdLaws}
use cpp_readline.Epoll.{Env}
use cpp_readline.Epoll.Laws.{CtlFails, not_removed}
use cpp_readline.Socket.{Socket}
use cpp_readline.Tcp.{Opened}
use cpp_readline.Tcp.Fresh.{new_stream_lem}
use cpp_readline.Tcp.Opening.{Opening, opened, declined}
use cpp_readline.Tcp.Server.{Serves, ServerFails, open_server_lem}
use cpp_readline.Tcp.Release.{
  delete_streams, delete_shut, delete_stream-Released, delete_streams-Released, Released,
  Released-elim, Released-mono, Holds, holds, AllHold, all-nil, inc_by,
}
use cpp_readline.Echo.Service.{
  EchoServer, EchoService, Served, delete_server, after_open, start_echo, stop_echo,
}

module _ (sys : Sys) (laws : FdLaws sys) where
  open laws use {held}

  -- How `StartServer` ends when the process holds `n` descriptors, of which `z` are registered: with a
  -- server that listens and one descriptor more, as before without a server, or with the exception of
  -- epoll_ctl(2).
  pub data Starts (n : ℕ) (z : ℤ) (addr : String) (port : ℕ) : Result (Served sys) → Type 0 where
    running :
        (v : EchoService) (s : Socket) (env : Env sys)
        → v.server ≡ some (record { socket = s; streams = [] })
        → Serves sys addr port s
        → Holds s
        → held env.kernel ≡ suc n
        → env.fds ≡ inc z
        → Starts n z addr port (ok (true, v, env))
    not_running :
        ServerFails sys addr port
        → (v : EchoService) (env : Env sys) → v.server ≡ none
        → held env.kernel ≡ n
        → env.fds ≡ z
        → Starts n z addr port (ok (false, v, env))
    threw : CtlFails sys → Starts n z addr port (fault exception)

  -- The service has no server, and the process holds `n` descriptors, of which `z` are registered; or
  -- some call of epoll_ctl(2) fails.
  pub data Stops (n : ℕ) (z : ℤ) : Result (Served sys) → Type 0 where
    stopped :
        (done : Bool) (v : EchoService) (env : Env sys)
        → v.server ≡ none
        → held env.kernel ≡ n
        → env.fds ≡ z
        → Stops n z (ok (done, v, env))
    threw : CtlFails sys → Stops n z (fault exception)

  after_open-Starts :
      (n : ℕ) (z : ℤ) (addr : String) (port : ℕ) (v : EchoService) {m : Result (Opened sys)}
      → Opening sys laws n z (ServerFails sys addr port) (Serves sys addr port) m
      → Starts n z addr port (m >>= after_open sys v)
  unfolding after_open delete_server delete_streams
  after_open-Starts n z addr port v (opened s env good fd e more count) =
      running _ s env refl good (holds fd e) more count
  after_open-Starts n z addr port v (declined why s env ready err shut same count) =
      rw (delete_shut sys laws s env shut) (not_running why _ env refl same count)
  after_open-Starts n z addr port v (Opening.threw c) = threw c

  pub start_echo_lem :
      (tx_rate : ℕ → ℕ) (now garbage : ℕ) (addr : String) (port : ℕ) (v : EchoService)
      (env : Env sys)
      → ((n : ℕ) → tx_rate n ≤ n)
      → v.server ≡ none
      → Starts
          (held env.kernel)
          env.fds
          addr
          port
          (start_echo sys tx_rate now garbage addr port v env)
  unfolding start_echo
  start_echo_lem tx_rate now garbage addr port v env rate_small idle = rw idle (
      Returns-elim (Starts (held env.kernel) env.fds addr port) _
        (new_stream_lem tx_rate now garbage garbage 8196 rate_small (omega arith))
        λ s fresh.
          after_open-Starts (held env.kernel) env.fds addr port
            (record v { address = addr; port = port; server = none })
            (open_server_lem sys laws s addr port env fresh.ready fresh.shut))

  delete_server-Released :
      (n : ℕ) (z : ℤ) (sv : EchoServer) (env : Env sys)
      → Holds sv.socket
      → AllHold sv.streams
      → held env.kernel ≡ suc (length sv.streams + n)
      → env.fds ≡ inc_by (length sv.streams) (inc z)
      → Released sys laws (CtlFails sys) n z (delete_server sys sv env)
  unfolding delete_server
  delete_server-Released n z sv env h hs more count =
      Released-elim sys laws (Released sys laws (CtlFails sys) n z) _
        (delete_streams-Released sys laws (suc n) (inc z) sv.streams env hs (omega arith) count)
        Released.threw
        (λ env' more' count'.
          Released-mono sys laws (λ bad. not_removed _ _ bad)
            (delete_stream-Released sys laws n z sv.socket env' h more' count'))

  -- `StopServer` on a service whose server and whose accepted streams have descriptors that are
  -- registered closes each of them, and nothing else, and leaves the service without a server; or it
  -- throws and some call of epoll_ctl(2) fails.
  pub stop_echo_lem :
      (n : ℕ) (z : ℤ) (sv : EchoServer) (v : EchoService) (env : Env sys)
      → v.server ≡ some sv
      → Holds sv.socket
      → AllHold sv.streams
      → held env.kernel ≡ suc (length sv.streams + n)
      → env.fds ≡ inc_by (length sv.streams) (inc z)
      → Stops n z (stop_echo sys v env)
  unfolding stop_echo delete_server
  stop_echo_lem n z sv v env up h hs more count = rw up (
      Released-elim sys laws (Stops n z) _ (delete_server-Released n z sv env h hs more count) threw
        (λ env' more' count'. stopped true _ env' refl more' count'))

  pub stopped_already :
      (n : ℕ) (z : ℤ) (v : EchoService) (env : Env sys)
      → v.server ≡ none
      → held env.kernel ≡ n
      → env.fds ≡ z
      → Stops n z (stop_echo sys v env)
  unfolding stop_echo
  stopped_already n z v env idle same count = rw idle (stopped false _ env refl same count)

  stop-Starts :
      (n : ℕ) (z : ℤ) (addr : String) (port : ℕ) {m : Result (Served sys)}
      → Starts n z addr port m
      → Stops n z (m >>= λ r. stop_echo sys r.1 r.2)
  unfolding inc_by
  stop-Starts n z addr port (running v s env up good h more count) =
      stop_echo_lem n z _ v env up h all-nil (omega arith) count
  stop-Starts n z addr port (not_running why v env idle same count) =
      stopped_already n z v env idle same count
  stop-Starts n z addr port (threw c) = threw c

  -- `StartServer` and then `StopServer` on a service without a server: whether the server could
  -- be opened or not, the service has no server afterwards, and the process holds as many
  -- descriptors as before, of which as many are registered; or one of the two throws and
  -- some call of epoll_ctl(2) fails. Here `tx_rate` never gives more than it is given.
  stop_echo-start_echo :
      (tx_rate : ℕ → ℕ) (now garbage : ℕ) (addr : String) (port : ℕ) (v : EchoService)
      (env : Env sys)
      → ((n : ℕ) → tx_rate n ≤ n)
      → v.server ≡ none
      → Stops
          (held env.kernel)
          env.fds
          (start_echo sys tx_rate now garbage addr port v env >>= λ r. stop_echo sys r.1 r.2)
  stop_echo-start_echo tx_rate now garbage addr port v env rate_small idle =
      stop-Starts (held env.kernel) env.fds addr port
        (start_echo_lem tx_rate now garbage addr port v env rate_small idle)
