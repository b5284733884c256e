-- ===== src/Tests/Sockets.antt =====
-- `DoHandle`, `OpenServer` and `OpenClient` run on the kernel of the fixture.
use cpp_readline.Common.{refl, ◌≡◌, none, true, fault, assertion, ok}
use cpp_readline.Sys.{only_in}
use cpp_readline.Socket.{full}
use cpp_readline.Machine.{Virtuals, do_handle}
use cpp_readline.Machine.Laws.{full_aborts}
use cpp_readline.Tcp.Opening.{Opening}
use cpp_readline.Tests.Fixture.{net, socket_in, env_with}

abbrev plain : Virtuals (net true)
plain = record {
  receiver = none;
  accept = λ s env. ok (true, s, env);
  on_connected = λ s env. ok (true, s, env);
}

full_aborts_example :
    do_handle (net true) plain only_in (socket_in full) (env_with true 3) ≡ fault assertion
full_aborts_example =
    full_aborts (net true) plain only_in (socket_in full) (env_with true 3) refl refl refl refl
