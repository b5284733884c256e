-- ===== src/Echo/Lifetime.antt =====
-- example/server_service.hpp: an echo server from `StartServer` to `StopServer`, with the connections that
-- come in between.
use Prim.Native.String.{String}
use cpp_readline.Common.{ℕ, suc, ◌≡◌, List, [], ◌∷◌, Option, none, some, Result, ok, ◌>>=◌}
use cpp_readline.Sys.{Sys, FdLaws}
use cpp_readline.Epoll.{Env}
use cpp_readline.Tcp.Accept.Drain.{QueueLaws}
use cpp_readline.Echo.Service.{EchoServer, EchoService}
use cpp_readline.Echo.Accepting.{accept_on}

module _ (sys : Sys) (queue : QueueLaws sys) (tx_rate : ℕ → ℕ) (now garbage len : ℕ) where
  abbrev Serving : Type 0
  Serving = EchoService × Env sys

  keep_server : EchoService → EchoServer × Env sys → Serving
  keep_server v (sv, env) = (record v { server = some sv }, env)

  -- an event of the listening socket, where there is one: one `Accept`
  on_event :
      (EchoService → Env sys → Result Serving)
      → Option EchoServer
      → EchoService
      → Env sys
      → Result Serving
  unfolding keep_server
  on_event rest none v env = rest v env
  on_event rest (some sv) v env =
      accept_on sys tx_rate now garbage len (suc (queue.waiting env.kernel)) sv env >>= λ r.
      rest (keep_server v r).0 (keep_server v r).1

  -- The events of the listening socket, each with what happened to the kernel before it: connections came
  -- in.
  pub accept_events : List (sys.Kernel → sys.Kernel) → EchoService → Env sys → Result Serving
  unfolding on_event
  accept_events [] v env = ok (v, env)
  accept_events (arrive ∷ events) v env =
      let rest = accept_events events in
      on_event rest v.server v (record env { kernel = arrive env.kernel })

module _ (sys : Sys) (laws : FdLaws sys) where
  open laws use {held}

  -- No event opens or closes a descriptor of the process.
  pub data AllCalm : List (sys.Kernel → sys.Kernel) → Type 0 where
    calm-nil : AllCalm []
    calm-cons :
        {arrive : sys.Kernel → sys.Kernel} {events : List (sys.Kernel → sys.Kernel)}
        → ((k : sys.Kernel) → held (arrive k) ≡ held k)
        → AllCalm events
        → AllCalm (arrive ∷ events)
