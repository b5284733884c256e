-- ===== src/Tests/Programs.antt =====
-- Commands, threads, the main loop and the buffers as queues, on small states.
use cpp_readline.Common.{
  append-nil, bytes, ℕ, ◌-◌, ◌≤◌, ◌≡◌, refl, sym, Bool, true, false, if◌then◌else◌, ◌==◌, leb, ltb,
  gt→leb, List, [], ◌∷◌, ◌⊎◌, Option, none, some, pos, Result, ok, Returns, returns, arith,
  replicate,
}
use cpp_readline.Shell.{str_eq, Shell}
use cpp_readline.Epoll.{Env}
use cpp_readline.SocketBuff.{contents}
use cpp_readline.SocketBuff.Queue.{
  Op, put, remove, resize, check, small-nil, small-put, small-remove, small-resize, small-check,
  Refines, run_ops, run_ops_lem,
}
use cpp_readline.Message.{Mail, process, basic, get_thread}
use cpp_readline.Message.Wait.{
  IsNext, events, events_lem, ready-nil, ready-cons, differ-nil, differ-cons,
}
use cpp_readline.Application.{init_name, test_msg}
use cpp_readline.Application.TestMsg.{Tested, test_msg_lem}
use cpp_readline.Command.{as_u16, Request, start, stoi, with_program, start_command}
use cpp_readline.Command.Route.{Routed, start_command_lem}
use cpp_readline.Application.Answers.{Answers}
use cpp_readline.Echo.Service.{EchoService}
use cpp_readline.Echo.Process.{serve_echo, first_service, tcp_server_proc}
use cpp_readline.Process.{Host, process_main}
use cpp_readline.Process.Rounds.{with_wait, process_main_lem}
use cpp_readline.Threads.{
  application_run, Thread, leave_loop, new_thread, run_thread, stop_thread, run_all, stop_all,
  enter_loop, enters, leaves, Steps, a_step, no_step, moves-here, moves-later,
}
use cpp_readline.Threads.Stopping.{
  application_run_lem, AllLaunched, AllReturned, CanMove, run_all_lem,
}
use cpp_readline.Tests.Fixture.{small_buff, small_buff-Inv, net, env_with}
use cpp_readline.Tests.Mails.{pipes, pipe_laws, mail}

abbrev ops : List Op
ops = put (some 3 ∷ some 4 ∷ []) ∷ remove 1 ∷ resize 12 ∷ check 3 ∷ put (replicate 20 none) ∷ []

run_ops_lem_example : Returns (Refines 16 (contents small_buff) ops) (run_ops ops small_buff)
run_ops_lem_example = run_ops_lem ops small_buff small_buff-Inv (
    small-put (omega arith) (
      small-remove (
        small-resize (omega arith)
          (small-check (omega arith) (small-put (omega arith) small-nil)))))

events_lem_example :
    Returns
      (IsNext pipes pipe_laws (λ a st. ok st) 3 8)
      (events pipes pipe_laws (λ a st. ok st) 3 1 (mail (7 ∷ 8 ∷ 9 ∷ [])))
events_lem_example =
    events_lem pipes pipe_laws (λ a st. ok st) 3
      (λ b st alive. returns (record {
        new = [];
        queue = sym (append-nil (pipe_laws.queue st.kernel 3));
        live = λ c l. l;
      }))
      (7 ∷ []) 8 (9 ∷ []) (mail (7 ∷ 8 ∷ 9 ∷ [])) refl
      (ready-cons refl (differ-cons refl differ-nil) (ready-cons refl differ-nil ready-nil))

abbrev init_mail : Mail pipes
init_mail = record (mail []) { threads = process init_name (some 3) ∷ []; live = λ a. a == 7 }

-- the address that `new` gives
abbrev eight : (ℕ → Bool) → ℕ
eight live = 8

found_init : get_thread init_mail.threads init_name ≡ some (process init_name (some 3))
unfolding get_thread str_eq
found_init = refl

test_msg_lem_example :
    Returns
      (Tested pipes pipe_laws eight 3 (bytes "hello") init_mail)
      (test_msg pipes eight 0 (bytes "TestMsg" ∷ bytes "hello" ∷ []) init_mail)
test_msg_lem_example =
    test_msg_lem pipes pipe_laws eight 0 3 init_name (bytes "TestMsg") (bytes "hello") [] init_mail
      found_init refl

abbrev Service : Type 0
Service = EchoService × Env (net true)

abbrev serve : Request → Service → Result Service
serve = serve_echo (net true) (λ n. n) 5 0

abbrev server_state : Mail (with_program pipes Service)
server_state = record {
  threads = process tcp_server_proc (some 3) ∷ [];
  thread_seq = 1;
  messages = λ a. record { flag = 0; val = 0; name = []; sender = []; receiver = []; sval = [] };
  live = λ a. false;
  kernel =
      ([], record { requests = λ a. Request.stop; service = (first_service, env_with true 3) });
}

found_server :
    get_thread server_state.threads tcp_server_proc ≡ some (process tcp_server_proc (some 3))
unfolding get_thread str_eq
found_server = refl

reads_port : stoi (bytes "9528") ≡ some (pos 9528)
unfolding stoi
reads_port = refl

start_command_lem_example :
    Returns
      (Routed pipes pipe_laws Service
        (λ s. "0.0.0.0")
        eight
        serve
        3
        (start "0.0.0.0" (as_u16 (pos 9528)))
        server_state)
      (start_command pipes Service
        (λ s. "0.0.0.0")
        eight
        0
        (some (basic []))
        (bytes "StartServer")
        tcp_server_proc
        (bytes "StartServer" ∷ bytes "0.0.0.0" ∷ bytes "9528" ∷ [])
        server_state)
start_command_lem_example =
    start_command_lem pipes pipe_laws Service (λ s. "0.0.0.0") eight serve 0 3 (basic [])
      tcp_server_proc (bytes "StartServer") tcp_server_proc (bytes "StartServer") (bytes "0.0.0.0")
      (bytes "9528") (pos 9528) server_state found_server refl refl reads_port

abbrev one_shell : Shell (Result (Mail (with_program pipes Service)))
one_shell = record { prompt = []; commands = [] }

-- one of two threads has entered its loop
one_entered :
    Steps 1
      (run_all (replicate 2 new_thread))
      (run_thread new_thread ∷ enter_loop (run_thread new_thread) ∷ [])
unfolding run_all run_thread
one_entered = a_step (moves-later (moves-here (enters new_thread))) no_step

run_all_lem_example : AllLaunched (run_thread new_thread ∷ enter_loop (run_thread new_thread) ∷ [])
run_all_lem_example =
    run_all_lem 2 1 (run_thread new_thread ∷ enter_loop (run_thread new_thread) ∷ []) one_entered

abbrev two_threads : List Thread
two_threads = run_thread new_thread ∷ enter_loop (run_thread new_thread) ∷ []

abbrev one_left : List Thread
one_left =
    run_thread (stop_thread new_thread)
    ∷ leave_loop (enter_loop (run_thread (stop_thread new_thread)))
    ∷ []

one_leaves : Steps 1 (stop_all two_threads) one_left
unfolding stop_all stop_thread run_thread enter_loop leave_loop
one_leaves =
    a_step (moves-later (moves-here (leaves (enter_loop (run_thread (stop_thread new_thread))))))
      no_step

application_run_lem_example : (1 ≤ 4) × (AllReturned one_left ⊎ CanMove one_left)
application_run_lem_example =
    application_run_lem 2 1 (stop_all two_threads) one_left (application_run one_entered) one_leaves

-- A process that counts down: listener 4 has an event in every round, next to a null pointer.
abbrev countdown : Host ℕ
countdown = record {
  is_running = λ s. ltb 0 s;
  wait = λ s t. (some (some 4 ∷ none ∷ []), s);
  check_timers = λ s. ok (3, s);
  handle = λ l s. ok (s - 1);
}

abbrev impatient : ℕ → ℕ → Option (List (Option ℕ)) × ℕ
impatient s t = if leb 11 t then (none, s) else (some (some 4 ∷ none ∷ []), s)

impatient-agrees : (s t : ℕ) → 1 ≤ t → t ≤ 10 → impatient s t ≡ countdown.wait s t
impatient-agrees s t low high = rw (gt→leb 11 t (omega arith)) refl

process_main_lem_example :
    process_main (with_wait countdown impatient) 6 5 ≡ process_main countdown 6 5
process_main_lem_example = process_main_lem countdown impatient impatient-agrees 6 5
