-- ===== src/Application.antt =====
-- src/xma_application.cpp: `Application::Init` with its commands. What `Run` and `Exit` do to the threads
-- is in Threads. The commands of the shell work on the registry of threads and on the messages; a fault
-- that one of them ends in is never caught, so the state that they work on is a `Result`. What a command
-- prints is left out.
pub mod TestMsg
pub mod Answers
use cpp_readline.Common.{
  bytes, ℕ, zero, Bool, true, false, List, [], ◌∷◌, Option, none, some, ℤ, pos, negsuc, Result, ok,
  fault, assertion, ◌>>=◌,
}
use cpp_readline.Shell.{Str, ShellCommand, Shell}
use cpp_readline.Shell.Many.{register_all}
use cpp_readline.Message.{Pipes, Msg, Thread, process, Mail, register, get_thread_id}
use cpp_readline.Message.Post.{new_msg, send_or_delete}

-- XMA_MSG_DEBUG
abbrev pub xma_msg_debug : ℕ
xma_msg_debug = 1

module _ {S : Type 0} where
  settle : Result (ℤ × S) → ℤ × Result S
  settle (ok (status, st)) = (status, ok st)
  settle (fault e) = (pos 0, fault e)

  -- a command, on a state that no fault has ended
  unfoldable pub lifted : (List Str → S → Result (ℤ × S)) → List Str → Result S → ℤ × Result S
  unfolding settle
  lifted f args (ok st) = settle (f args st)
  lifted f args (fault e) = (pos 0, fault e)

  -- a command that only prints
  unfoldable pub prints : List Str → S → Result (ℤ × S)
  prints args st = ok (pos 0, st)

  -- the arguments of `RegisterCommand`
  abbrev pub command : Str → Str → (List Str → S → Result (ℤ × S)) → ShellCommand (Result S)
  command name help f = record { name = name; help = help; func = lifted f }

  -- the status of a command that sends a message
  abbrev pub done : Result S → Result (ℤ × S)
  done m = m >>= λ st. ok (pos 0, st)

abbrev pub init_name : Str
init_name = bytes "Init"

-- `____init____`, which `Application::Init` makes the current thread
abbrev pub init_thread : Thread
init_thread = process init_name none

-- `Msg(name)`: `garbage` is what the memory of `val_` held
abbrev pub debug_msg : Str → ℕ → Msg
debug_msg name garbage = record {
  flag = xma_msg_debug;
  val = garbage;
  name = name;
  sender = [];
  receiver = [];
  sval = [];
}

module _ (pipes : Pipes) (alloc : (ℕ → Bool) → ℕ) where
  -- the function of "TestMsg"
  unfoldable pub test_msg : ℕ → List Str → Mail pipes → Result (ℤ × Mail pipes)
  test_msg garbage [] st = ok (negsuc zero, st)
  test_msg garbage (cmd ∷ []) st = ok (negsuc zero, st)
  test_msg garbage (cmd ∷ word ∷ more) st = done (
      send_or_delete pipes (some init_thread) init_name (alloc st.live)
        (new_msg pipes (alloc st.live) (debug_msg word garbage) st))

  abbrev pub application_commands : ℕ → List (ShellCommand (Result (Mail pipes)))
  application_commands garbage =
      command (bytes "ListThread") (bytes "List all threads") prints
      ∷ command (bytes "ListService") (bytes "List all services") prints
      ∷ command (bytes "ListListener") (bytes "List all listeners") prints
      ∷ command (bytes "Version") (bytes "Show version") prints
      ∷ command (bytes "TestMsg") (bytes "Send a test message") (test_msg garbage)
      ∷ []

  -- `Application::Init`, on the current thread, the shell and the registry of threads. The process "Init"
  -- takes a thread id and registers itself.
  unfoldable pub init_application :
      ℕ
      → Option Thread
      → Shell (Result (Mail pipes))
      → Mail pipes
      → Result (Option Thread × Shell (Result (Mail pipes)) × Mail pipes)
  init_application garbage (some current) sh st = fault assertion
  init_application garbage none sh st = ok (
    some init_thread,
    register_all (Result (Mail pipes)) (application_commands garbage) sh,
    register pipes init_thread (get_thread_id pipes st).1,
  )
