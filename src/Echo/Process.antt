-- ===== src/Echo/Process.antt =====
-- example/server_process.cpp and example/server_msg.hpp: the process of the echo server, its messages and
-- its commands.
use Prim.Native.String.{String}
use cpp_readline.Common.{bytes, ℕ, Bool, List, [], ◌∷◌, Option, Result, ok, ◌>>=◌}
use cpp_readline.Sys.{Sys}
use cpp_readline.Epoll.{Env}
use cpp_readline.Shell.{Str, ShellCommand, Shell}
use cpp_readline.Shell.Many.{register_all}
use cpp_readline.Message.{Pipes, Thread}
use cpp_readline.Application.{command, prints}
use cpp_readline.Command.{Request, start, stop, State, start_command, stop_command}
use cpp_readline.Echo.Service.{EchoService, new_service, start_echo, stop_echo}

-- TCP_SERVER_PROC
abbrev pub tcp_server_proc : Str
tcp_server_proc = bytes "TcpServer"

-- the service that `TcpEchoProcess::OnInit` makes
abbrev pub first_service : EchoService
first_service = new_service "127.0.0.1" 9527

module _ (sys : Sys) (tx_rate : ℕ → ℕ) (now garbage : ℕ) where
  -- `Handler` of `StartServer` and of `StopServer`, on the service of the process
  unfoldable pub serve_echo : Request → EchoService × Env sys → Result (EchoService × Env sys)
  serve_echo (start addr port) (v, env) =
      start_echo sys tx_rate now garbage addr port v env >>= λ r. ok (r.1, r.2)
  serve_echo stop (v, env) = stop_echo sys v env >>= λ r. ok (r.1, r.2)

  module _ (pipes : Pipes) (string_of : Str → String) (alloc : (ℕ → Bool) → ℕ)
      (current : Option Thread) where
    abbrev pub ServerState : Type 0
    ServerState = State pipes (EchoService × Env sys) string_of alloc

    -- `TcpEchoProcess::OnShell`
    abbrev pub server_commands : List (ShellCommand (Result ServerState))
    server_commands =
        command (bytes "StartServer") (bytes "Start an echo server") (
          start_command pipes (EchoService × Env sys) string_of alloc garbage current
            (bytes "StartServer") tcp_server_proc)
        ∷ command (bytes "StopServer") (bytes "Stop server") (
            stop_command pipes (EchoService × Env sys) string_of alloc garbage current
              (bytes "StopServer") tcp_server_proc)
        ∷ command (bytes "ShowStats") (bytes "Show the current server stats") prints
        ∷ []

    unfoldable pub server_on_shell : Shell (Result ServerState) → Shell (Result ServerState)
    server_on_shell sh = register_all (Result ServerState) server_commands sh
