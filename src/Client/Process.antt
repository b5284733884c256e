-- ===== src/Client/Process.antt =====
-- client/client_process.cpp and client/client_msg.hpp: the process of the client, its messages and its
-- commands.
use Prim.Native.String.{String}
use cpp_readline.Common.{
  bytes, ℕ, Bool, List, [], ◌∷◌, Option, Result, ok, assertion, guard, ◌>>◌, not, ◌&&◌,
}
use cpp_readline.Sys.{Sys}
use cpp_readline.Shell.{Str, ShellCommand, Shell}
use cpp_readline.Shell.Many.{register_all}
use cpp_readline.Message.{Pipes, Thread}
use cpp_readline.Application.{command, prints}
use cpp_readline.Command.{Request, start, stop, State, start_command, stop_command}
use cpp_readline.Client.{Client, World, start_client, stop_client}

-- TCP_CLIENT_PROC
abbrev pub tcp_client_proc : Str
tcp_client_proc = bytes "TcpClient"

module _ (sys : Sys) (tx_rate : ℕ → ℕ) (now garbage t : ℕ) where
  -- `Handler` of `StartConnect` and of `StopConnect`, on the service of the process
  unfoldable pub serve_client :
      Request → Option Client × World sys → Result (Option Client × World sys)
  serve_client (start addr port) (client, w) =
      start_client sys tx_rate now garbage t addr port client w
  serve_client stop (client, w) = stop_client sys client w

  module _ (pipes : Pipes) (string_of : Str → String) (alloc : (ℕ → Bool) → ℕ)
      (current : Option Thread) where
    abbrev pub ClientState : Type 0
    ClientState = State pipes (Option Client × World sys) string_of alloc

    abbrev pub client_commands : List (ShellCommand (Result ClientState))
    client_commands =
        command (bytes "Connect") (bytes "Connect to an echo server") (
          start_command pipes (Option Client × World sys) string_of alloc garbage current
            (bytes "StartConnect") tcp_client_proc)
        ∷ command (bytes "Disconnect") (bytes "Disconnect the current connection") (
            stop_command pipes (Option Client × World sys) string_of alloc garbage current
              (bytes "StopConnect") tcp_client_proc)
        ∷ command (bytes "ShowStats") (bytes "Show the current connection stats") prints
        ∷ []

    -- `TcpClientProcess::OnShell`, which runs on the process's own thread: `own` is whether it does
    unfoldable pub client_on_shell :
        Bool → Shell (Result ClientState) → Result (Shell (Result ClientState))
    client_on_shell own sh =
        guard (not (sys.asserts && not own)) assertion
        >> ok (register_all (Result ClientState) client_commands sh)
