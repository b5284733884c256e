-- ===== src/Tests/Services.antt =====
-- The example programs on the kernel of the fixture.
use cpp_readline.Common.{
  List, sym, ==→≡, ◌==◌, ◌∷◌, ℕ, ◌^◌, ◌*◌, refl, none, some, true, false, [], replicate, pos, ok,
  Returns, arith,
}
use cpp_readline.Epoll.{Env}
use cpp_readline.Socket.{Socket, connected}
use cpp_readline.Machine.Live.{IsLive}
use cpp_readline.Tcp.Opening.{holding}
use cpp_readline.Timer.{Timers, check_timers, due_of}
use cpp_readline.Timer.Text.{Tm, IsStamp, time_to_str, time_to_str_lem}
use cpp_readline.Timer.Arm.{IsArmed, waits-here}
use cpp_readline.Timer.Check.{due_part}
use cpp_readline.Timer.Listed.{IsListed, dis-nil, dis-cons, act-nil, act-cons}
use cpp_readline.Timer.Again.{FiredOnce}
use cpp_readline.Echo.{EchoListener}
use cpp_readline.Echo.Talk.{Turn, readable, writable}
use cpp_readline.Echo.Talk.Calls.{echo_receiver}
use cpp_readline.Echo.Talk.Handle.{Answered, do_handle-echo}
use cpp_readline.Sys.{in_out_err_hup}
use cpp_readline.Machine.{Virtuals, do_handle}
use cpp_readline.Echo.Service.{EchoService, new_service}
use cpp_readline.Client.{Client, on_connected}
use cpp_readline.Client.Sending.{Offers}
use cpp_readline.Client.Ticking.{tick, check_timers-tick}
use cpp_readline.Timer.Order.{no-nil, asc-nil, asc-cons}
use cpp_readline.Tests.Fixture.{net, net_laws, socket_in, socket_in-IsOpen, fresh_socket, env_with}

abbrev echoer : EchoListener
echoer = record { buff = replicate 512 none; read_bytes = 0; read_pkt = 0; last_uptime = 0 }

live : IsLive (socket_in connected)
live = record { is_open = socket_in-IsOpen connected; state = refl }

abbrev turns : List Turn
turns = readable 5 9 ∷ writable ∷ readable 10 12 ∷ []

-- a connection that the echo server has
abbrev echo_virtuals : Virtuals (net true)
echo_virtuals = record {
  receiver = some (echo_receiver (net true) 5 9 echoer);
  accept = λ s env. ok (true, s, env);
  on_connected = λ s env. ok (true, s, env);
}

do_handle-echo_example :
    Answered
      (net true)
      (net_laws true)
      in_out_err_hup
      5
      9
      echoer
      (socket_in connected)
      (env_with true 3)
      (do_handle (net true) echo_virtuals in_out_err_hup (socket_in connected) (env_with true 3))
do_handle-echo_example =
    do_handle-echo (net true) (net_laws true) echo_virtuals in_out_err_hup 5 9 echoer
      (socket_in connected) (env_with true 3) refl (socket_in-IsOpen connected) refl

abbrev same_rate : ℕ → ℕ
same_rate n = n

abbrev idle_service : EchoService
idle_service = new_service "127.0.0.1" 9527

-- a socket with the descriptor `fd`
abbrev held_socket : ℕ → Socket
held_socket fd = record fresh_socket { listener = holding fd }

abbrev three_fds : Env (net true)
three_fds = record (env_with true 3) { fds = pos 3 }

-- Timers that have an id and are not set.
abbrev quiet : Timers
quiet = record {
  last_id = 1;
  fresh = 0;
  nodes = [];
  objects = λ t. record { expire = 3000; active = false; id = 1; timepoint = 0 };
}

abbrev a_client : Client
a_client = record { socket = held_socket 6; timer = 9; linked = true }

abbrev noon : Tm
noon = record { hour = 12; min = 0; sec = 7 }

time_to_str_lem_example : Returns (IsStamp (7 * 10 ^ 9)) (time_to_str noon (7 * 10 ^ 9))
time_to_str_lem_example = time_to_str_lem noon (7 * 10 ^ 9)

abbrev live_client : Client
live_client = record { socket = socket_in connected; timer = 9; linked = true }

-- the client's timer is set and due at 100
abbrev running : Timers
running = record {
  last_id = 1;
  fresh = 1;
  nodes = record { at = 0; timer = 9 } ∷ [];
  objects = λ t. record { expire = 3000; active = t == 9; id = 1; timepoint = 100 };
}

running-IsListed : IsListed running.objects running.nodes
running-IsListed = record {
  ordered = asc-cons (omega arith) asc-nil;
  distinct = dis-cons no-nil dis-nil;
  active = act-cons refl refl act-nil;
  listed = λ t e. waits-here (sym (==→≡ t 9 e));
}

check_timers-tick_example :
    Returns
      (λ r.
        Offers (net true) (net_laws true) noon 101 live_client (env_with true 3) r.1
        × IsArmed 102 3000 9 r.2
        × FiredOnce
            (tick (net true) noon 101 102)
            100
            (due_part (due_of running.objects) 100 running.nodes)
            (live_client, env_with true 3)
            running
            (r.1, r.2))
      (check_timers (tick (net true) noon 101 102) 2 100 (live_client, env_with true 3) running)
check_timers-tick_example =
    check_timers-tick (net true) noon 101 102 (net_laws true) 2 100 live_client (env_with true 3)
      running live refl running-IsListed refl (omega arith) (omega arith) (omega arith)
      (omega arith)
