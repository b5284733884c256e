-- ===== src/Tests/Streams.antt =====
-- `WriteMsg` and `ReadMsg` on the kernel of the fixture.
use cpp_readline.Common.{refl, some, [], ◌∷◌, List, arith, Returns, true, false}
use cpp_readline.Memory.{Cell}
use cpp_readline.Socket.{connected}
use cpp_readline.Stream.Tx.{do_write, write_msg}
use cpp_readline.Stream.Tx.Flow.{Flushed, do_write_lem, flow}
use cpp_readline.Stream.Tx.Write.{Written, write_msg_lem}
use cpp_readline.Stream.Rx.{read_msg}
use cpp_readline.Stream.Rx.Whole.{OrAborts, read_msg_any}
use cpp_readline.Tests.Fixture.{
  net, net_laws, socket_in, socket_in-IsOpen, env_with, small_buff-Inv,
}

abbrev hello : List Cell
hello = some 104 ∷ some 105 ∷ []

-- The kernel takes three bytes: the two that were cached and one of the message.
write_msg_lem_example :
    Returns
      (Written
        (net true)
        (net_laws true)
        (socket_in connected)
        hello
        (flow (net true) (net_laws true) (socket_in connected) (env_with true 3)))
      (write_msg (net true) (socket_in connected) (some hello) (env_with true 3))
write_msg_lem_example =
    write_msg_lem (net true) (net_laws true) (socket_in connected) hello (env_with true 3)
      (socket_in-IsOpen connected) (omega arith)

read_msg_any_example :
    OrAborts
      (net true)
      (net_laws true)
      (socket_in connected)
      4
      (env_with true 3)
      (read_msg (net true) false (socket_in connected) 4 (env_with true 3))
read_msg_any_example =
    read_msg_any (net true) (net_laws true) (socket_in connected) 4 (env_with true 3) small_buff-Inv
      refl (omega arith) (omega arith)

-- The kernel takes one of the two cached bytes.
do_write_lem_example :
    Returns
      (Flushed
        (net true)
        (net_laws true)
        (socket_in connected)
        (flow (net true) (net_laws true) (socket_in connected) (env_with true 1)))
      (do_write (net true) (socket_in connected) (env_with true 1))
do_write_lem_example =
    do_write_lem (net true) (net_laws true) (socket_in connected) (env_with true 1) small_buff-Inv
      refl refl
