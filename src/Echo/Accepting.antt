-- ===== src/Echo/Accepting.antt =====
-- example/server_service.hpp and src/xma_socket.cpp: the echo server as the application of
-- `TcpSocket::Accept`. The server is the listening socket itself: `Accept` runs on its `socket`, and
-- `OnAccept` changes its `streams`.
use cpp_readline.Common.{ℕ, Result, ok, ◌>>=◌}
use cpp_readline.Sys.{Sys}
use cpp_readline.Epoll.{Env}
use cpp_readline.Socket.{Socket}
use cpp_readline.Tcp.Accept.{Application, accept, new_stream}
use cpp_readline.Echo.Service.{EchoServer, on_accept}

module _ (sys : Sys) (tx_rate : ℕ → ℕ) (now garbage len : ℕ) where
  -- `TcpSocket::OnCreate`: `len` is what the memory of `buff_len` held, which nothing sets
  unfoldable pub on_create : ℕ → Result Socket
  on_create fd = new_stream tx_rate now garbage garbage len

  abbrev pub echo_app : Application sys EchoServer
  echo_app = record {
    on_create = on_create;
    on_accept = λ s sv env. ok ((on_accept sv s).0, (on_accept sv s).1, env);
  }

  -- `Accept` of the server
  unfoldable pub accept_on : ℕ → EchoServer → Env sys → Result (EchoServer × Env sys)
  accept_on fuel sv env = accept sys EchoServer fuel echo_app sv.socket sv env >>= λ r.
      ok (record r.1 { socket = r.0 }, r.2)
