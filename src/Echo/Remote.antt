-- ===== src/Echo/Remote.antt =====
-- example/server_process.cpp, src/xma_process.cpp and example/server_service.hpp together: the shell's
-- "StartServer", and the event of the process's pipe that follows it.
use Prim.Native.String.{String}
use cpp_readline.Common.{
  ℕ, suc, ◌≤◌, ◌≡◌, sym, ap, ◌∙◌, subst, Bool, true, false, none, some, [], ◌∷◌, ℤ, pos, inc,
  Result, ok, fault, exception, ◌>>=◌, Returns, Returns-mono, bytes,
}
use cpp_readline.Sys.{Sys, FdLaws}
use cpp_readline.Epoll.{Env}
use cpp_readline.Epoll.Laws.{CtlFails}
use cpp_readline.Socket.{Socket}
use cpp_readline.Shell.{Str}
use cpp_readline.Message.{Pipes, PipeLaws, Thread, process, get_thread, do_handle}
use cpp_readline.Command.{start, with_program, stoi, as_u16, State, start_command, handler}
use cpp_readline.Command.Route.{Routed, arrives, unsent, start_command_lem}
use cpp_readline.Tcp.Server.{Serves, ServerFails}
use cpp_readline.Tcp.Release.{Holds}
use cpp_readline.Echo.Service.{EchoService, Served}
use cpp_readline.Echo.Life.{Starts, running, not_running, start_echo_lem}
use cpp_readline.Echo.Process.{serve_echo, tcp_server_proc}

module _ (sys : Sys) (fd_laws : FdLaws sys) (pipes : Pipes) (laws : PipeLaws pipes)
    (string_of : Str → String) (alloc : (ℕ → Bool) → ℕ) (tx_rate : ℕ → ℕ) (now garbage p : ℕ) where
  open fd_laws use {held}

  abbrev V : Type 0
  V = EchoService × Env sys

  abbrev St : Type 0
  St = State pipes V string_of alloc

  -- the next event of the process's pipe
  abbrev pub next_event : St → Result (Bool × St)
  next_event st =
      do_handle (with_program pipes V)
        (handler pipes V string_of alloc (serve_echo sys tx_rate now garbage)) p st

  -- How that event ends when the process held `n` descriptors, of which `z` were registered. The pipe
  -- is empty after it.
  pub data Started (n : ℕ) (z : ℤ) (addr : String) (port : ℕ) : Result (Bool × St) → Type 0 where
    serving :
        (st : St) (s : Socket)
        → st.kernel.1.service.0.server ≡ some (record { socket = s; streams = [] })
        → Serves sys addr port s
        → Holds s
        → held st.kernel.1.service.1.kernel ≡ suc n
        → st.kernel.1.service.1.fds ≡ inc z
        → laws.queue st.kernel.0 p ≡ []
        → Started n z addr port (ok (true, st))
    not_serving :
        ServerFails sys addr port
        → (st : St) → st.kernel.1.service.0.server ≡ none
        → held st.kernel.1.service.1.kernel ≡ n
        → st.kernel.1.service.1.fds ≡ z
        → laws.queue st.kernel.0 p ≡ []
        → Started n z addr port (ok (true, st))
    failed : CtlFails sys → Started n z addr port (fault exception)

  Starts-Started :
      (n : ℕ) (z : ℤ) (addr : String) (port : ℕ) (next : V → St)
      → ((v : V) → (next v).kernel.1.service ≡ v)
      → ((v : V) → laws.queue (next v).kernel.0 p ≡ [])
      → {m : Result (Served sys)} → Starts sys fd_laws n z addr port m
      → Started n z addr port ((m >>= λ r. ok (r.1, r.2)) >>= λ v. ok (true, next v))
  Starts-Started n z addr port next is empty (running v s env up good h more count) =
      serving (next (v, env)) s (ap (λ w. w.0.server) (is (v, env)) ∙ up) good h
        (ap (λ w. held w.1.kernel) (is (v, env)) ∙ more) (ap (λ w. w.1.fds) (is (v, env)) ∙ count)
        (empty (v, env))
  Starts-Started n z addr port next is empty (not_running why v env idle same count) =
      not_serving why (next (v, env)) (ap (λ w. w.0.server) (is (v, env)) ∙ idle)
        (ap (λ w. held w.1.kernel) (is (v, env)) ∙ same) (ap (λ w. w.1.fds) (is (v, env)) ∙ count)
        (empty (v, env))
  Starts-Started n z addr port next is empty (Starts.threw c) = failed c

  -- How the command ends: the next event of the pipe starts the server, or the message was not sent, and
  -- the service, the pipe and the messages in use are as before.
  pub data Commanded (addr : String) (port : ℕ) (st : St) : ℤ × St → Type 0 where
    sent :
        (st' : St)
        → Started
            (held st.kernel.1.service.1.kernel)
            st.kernel.1.service.1.fds
            addr
            port
            (next_event st')
        → Commanded addr port st (pos 0, st')
    not_sent :
        (st' : St)
        → (pipes.write st.kernel.0 p (alloc st.live)).0 ≡ false
        → st'.kernel.1.service ≡ st.kernel.1.service
        → laws.queue st'.kernel.0 p ≡ []
        → ((b : ℕ) → st'.live b ≡ st.live b)
        → Commanded addr port st (pos 0, st')

  Routed-Commanded :
      (addr : String) (port : ℕ) (st : St) {r : ℤ × St}
      → ((n : ℕ) → tx_rate n ≤ n)
      → st.kernel.1.service.0.server ≡ none
      → Routed pipes laws V string_of alloc
          (serve_echo sys tx_rate now garbage)
          p
          (start addr port)
          st
          r
      → Commanded addr port st r
  unfolding serve_echo
  Routed-Commanded addr port st rate_small idle (arrives st' next is empty eq) = sent st' (
      subst (Started _ _ addr port) (sym eq) (
        Starts-Started _ _ addr port next is empty (
          start_echo_lem sys fd_laws tx_rate now garbage addr port st.kernel.1.service.0
            st.kernel.1.service.1 rate_small idle)))
  Routed-Commanded addr port st rate_small idle (unsent st' full same empty live) =
      not_sent st' full same empty live

  -- "StartServer" with an address and a port that `std::stoi` reads, for a "TcpServer" that is a process
  -- with the empty pipe `p` and whose service has no server, returns 0, where `new` gives an address
  -- that is not in use and `tx_rate` never gives more than it is given. Either the next event of the
  -- pipe leaves the pipe empty and the service with a server that listens on that address and that
  -- port, modulo 2^16, and one descriptor more, held and registered; or it leaves the service without a
  -- server and without a descriptor more; or it throws and some call of epoll_ctl(2) fails. Or the message was not
  -- sent, and the service, the pipe and the messages in use are as before.
  pub start_server_lem :
      (current : Thread) (nm cmd addr port : Str) (n : ℤ) (st : St)
      → ((m : ℕ) → tx_rate m ≤ m)
      → st.kernel.1.service.0.server ≡ none
      → get_thread st.threads tcp_server_proc ≡ some (process nm (some p))
      → laws.queue st.kernel.0 p ≡ []
      → st.live (alloc st.live) ≡ false
      → stoi port ≡ some n
      → Returns (Commanded (string_of addr) (as_u16 n) st) (
          start_command pipes V string_of alloc garbage
            (some current)
            (bytes "StartServer")
            tcp_server_proc
            (cmd ∷ addr ∷ port ∷ [])
            st)
  start_server_lem current nm cmd addr port n st rate_small idle found empty unused reads =
      Returns-mono
        (start_command_lem pipes laws V string_of alloc (serve_echo sys tx_rate now garbage) garbage
          p current nm (bytes "StartServer") tcp_server_proc cmd addr port n st found empty unused
          reads)
        λ r routed. Routed-Commanded _ _ st rate_small idle routed
