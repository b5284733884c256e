-- ===== src/Tests/Mails.antt =====
-- One process with a pipe that holds addresses without a limit.
use cpp_readline.Common.{ℕ, true, List, [], ◌∷◌, ◌++◌, some, Returns, ◌≡◌, refl}
use cpp_readline.Shell.{Str, str_eq}
use cpp_readline.Message.{
  Pipes, PipeLaws, PipeReply, failed, address, process, basic, Mail, get_thread, send,
}
use cpp_readline.Message.Send.{Sent, send_lem}

abbrev pub front : List ℕ → PipeReply × List ℕ
front [] = (failed, [])
front (a ∷ rest) = (address a, rest)

abbrev pub pipes : Pipes
pipes = record { Kernel = List ℕ; write = λ k p a. (true, k ++ (a ∷ [])); read = λ k p. front k }

pub front-oldest :
    (k : List ℕ) (a : ℕ) (rest : List ℕ)
    → k ≡ a ∷ rest
    → ((front k).0 ≡ address a) × ((front k).1 ≡ rest)
front-oldest k a rest e = rw e (refl, refl)

abbrev pub pipe_laws : PipeLaws pipes
pipe_laws = record {
  queue = λ k p. k;
  written = λ k p a. refl;
  oldest = λ k p a rest e. front-oldest k a rest e;
}

abbrev pub server_name : Str
server_name = 115 ∷ []

abbrev pub mail : List ℕ → Mail pipes
mail waiting = record {
  threads = process server_name (some 3) ∷ [];
  thread_seq = 1;
  messages = λ a. record { flag = 0; val = a; name = []; sender = []; receiver = []; sval = [] };
  live = λ a. true;
  kernel = waiting;
}

found_server : get_thread (mail (7 ∷ [])).threads server_name ≡ some (process server_name (some 3))
unfolding get_thread str_eq
found_server = refl

send_lem_example :
    Returns
      (Sent pipes pipe_laws 3 8 (99 ∷ []) server_name (mail (7 ∷ [])))
      (send pipes (some (basic (99 ∷ []))) server_name 8 (mail (7 ∷ [])))
send_lem_example =
    send_lem pipes pipe_laws (basic (99 ∷ [])) server_name 3 8 server_name (mail (7 ∷ []))
      found_server
