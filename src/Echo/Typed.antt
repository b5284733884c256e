-- ===== src/Echo/Typed.antt =====
-- src/xma_shell.cpp, example/server_process.cpp, src/xma_process.cpp and example/server_service.hpp
-- together: a line "StartServer address port" that is typed at the shell, and the event of the process's
-- pipe that follows it.
use Prim.Native.String.{String}
use cpp_readline.Common.{bytes, ℕ, Bool, List, ℤ, Option, Result}
use cpp_readline.Sys.{Sys, FdLaws}
use cpp_readline.Epoll.{Env}
use cpp_readline.Shell.{Str, Shell}
use cpp_readline.Message.{Pipes, PipeLaws, Thread}
use cpp_readline.Application.Answers.{Answers}
use cpp_readline.Command.{State, start_command}
use cpp_readline.Echo.Process.{tcp_server_proc}
use cpp_readline.Echo.Service.{EchoService}

module _ (sys : Sys) (fd_laws : FdLaws sys) (pipes : Pipes) (laws : PipeLaws pipes)
    (string_of : Str → String) (alloc : (ℕ → Bool) → ℕ) (tx_rate : ℕ → ℕ) (now garbage p : ℕ) where
  abbrev St : Type 0
  St = State pipes (EchoService × Env sys) string_of alloc

  abbrev start_func : Option Thread → List Str → St → Result (ℤ × St)
  start_func current =
      start_command pipes (EchoService × Env sys) string_of alloc garbage current
        (bytes "StartServer") tcp_server_proc
