-- ===== src/Tests/Broken.antt =====
-- A connection of the echo server that hangs up.
use cpp_readline.Common.{refl, ◌==◌, if◌then◌else◌, true, inl, none, some, ok}
use cpp_readline.Sys.{in_err_hup}
use cpp_readline.Socket.{Socket, connected}
use cpp_readline.Machine.{Virtuals}
use cpp_readline.Listener.{Listener, no_events}
use cpp_readline.Echo.Errors.{Objects, handle_at}
use cpp_readline.Echo.HungUp.{Breaks, handle_at-Breaks}
use cpp_readline.Tests.Fixture.{net, socket_in, env_with}

abbrev plain : Virtuals (net true)
plain = record {
  receiver = none;
  accept = λ s env. ok (true, s, env);
  on_connected = λ s env. ok (true, s, env);
}

abbrev connection : Listener Socket
connection = record { stats = no_events; object = socket_in connected }

-- the connection is the object at 9
abbrev objects : Objects
objects a = if a == 9 then some connection else none

handle_at-Breaks_example :
    Breaks (handle_at (net true) plain 9 in_err_hup (objects, env_with true 3))
handle_at-Breaks_example =
    handle_at-Breaks (net true) plain 9 in_err_hup connection objects (env_with true 3) refl refl
      (inl refl)
