-- ===== src/Machine/Live.antt =====
-- src/xma_socket.cpp: connected streams with valid buffers.
use cpp_readline.Common.{◌≡◌}
use cpp_readline.Socket.{Socket, connected}
use cpp_readline.Stream.Tx.Direct.{IsOpen}

-- A connected stream with valid buffers.
pub record IsLive (s : Socket) : Type 0 where
  pub is_open : IsOpen s
  pub state : s.state ≡ connected
