-- ===== src/Tcp.antt =====
-- src/xma_socket.cpp: `TcpSocket::OpenServer` and `TcpSocket::OpenClient`, with `StreamSocket::Reset`.
-- The address family is AF_INET in both; `af` only goes to socket(2).
pub mod Opening
pub mod Accept
pub mod Fresh
pub mod Server
pub mod Client
pub mod Release
use Prim.Native.String.{String}
use cpp_readline.Common.{
  ℕ, zero, suc, List, [], ◌∷◌, Option, none, some, Bool, true, false, if◌then◌else◌, ◌&&◌, not, ℤ,
  pos, negsuc, Result, ok, assertion, ◌>>=◌, ◌>>◌, guard,
}
use cpp_readline.Sys.{
  Sys, Fd, only_in, in_out_err_hup, ConnectReply, done, in_progress, SockOpt, reuseaddr, sndbuf,
  nodelay, quickack,
}
use cpp_readline.SocketBuff.{set_index}
use cpp_readline.Epoll.{EpollListener, Env, is_open, start, close, set_events}
use cpp_readline.Socket.{
  Socket, State, created, listening, connecting, failed, Error, sys_err, state_err, set_err,
  set_state,
}

-- `GetState() != State::CREATED && GetState() != State::FAILED`, negated
abbrev pub can_open : State → Bool
can_open created = true
can_open failed = true
can_open _ = false

-- `ret == -1` and `ret == 0` of an `int`
abbrev pub is_minus_one : ℤ → Bool
is_minus_one (negsuc zero) = true
is_minus_one _ = false

abbrev pub is_zero : ℤ → Bool
is_zero (pos zero) = true
is_zero _ = false

abbrev pub set_listener : Socket → EpollListener → Socket
set_listener s l = record s { listener = l }

-- `SetState(State::FAILED); SetErr(Error::SYS_ERR);`
abbrev pub give_up : Socket → Socket
give_up s = record s { state = failed; last_err = sys_err }

-- `StreamSocket::Init`
abbrev pub init_stream : Socket → Socket
init_stream s = record s {
  state = created;
  rx_buff = set_index s.rx_buff 0;
  tx_buff = set_index s.tx_buff 0;
}

module _ (sys : Sys) where
  abbrev pub Opened : Type 0
  Opened = Bool × Socket × Env sys

  abbrev pub with_kernel : Env sys → sys.Kernel → Env sys
  with_kernel env k = record env { kernel = k }

  -- a failure before the descriptor is given to the listener: `::close(fd)`
  pub drop_fd : Socket → ℕ → Env sys → Opened
  drop_fd s fd env = (false, give_up s, with_kernel env (sys.close env.kernel (some fd)))

  -- `StreamSocket::Reset`
  unfoldable pub reset : Socket → Env sys → Result (Socket × Env sys)
  reset s env = close sys s.listener env >>= λ r. ok (init_stream (set_listener s r.0), r.1)

  -- `OpenServer` after `listen`
  after_listen : Socket → String → ℕ → Bool × Env sys → Result Opened
  after_listen s addr port (true, env) = do
    let t = record s { addr = addr; port = port; state = listening }
    r ← set_events sys t.listener only_in env
    ok (true, t, r.1)
  after_listen s addr port (false, env) =
      close sys s.listener env >>= λ r. ok (false, set_listener (give_up s) r.0, r.1)

  -- from `Start(fd)` on
  pub start_server : Socket → String → ℕ → ℕ → Env sys → Result Opened
  unfolding after_listen
  start_server s addr port fd env = do
    (started, l, env') ← start sys s.listener fd env
    after_listen (set_listener s l) addr port
        ((sys.listen env'.kernel l.fd).0, with_kernel env' (sys.listen env'.kernel l.fd).1)

  after_bind : Socket → String → ℕ → ℕ → Bool × Env sys → Result Opened
  unfolding drop_fd start_server
  after_bind s addr port fd (false, env) = ok (drop_fd s fd env)
  after_bind s addr port fd (true, env) = start_server s addr port fd env

  bind_server : Socket → String → ℕ → ℕ → Env sys → Result Opened
  unfolding after_bind
  bind_server s addr port fd env =
      after_bind s addr port fd
        ((sys.bind env.kernel fd addr port).0, with_kernel env (sys.bind env.kernel fd addr port).1)

  after_reuseaddr : Socket → String → ℕ → ℕ → ℤ × Env sys → Result Opened
  unfolding drop_fd bind_server
  after_reuseaddr s addr port fd (ret, env) =
      if is_minus_one ret then ok (drop_fd s fd env) else bind_server s addr port fd env

  after_server_socket : Socket → String → ℕ → Option ℕ × Env sys → Result Opened
  unfolding after_reuseaddr
  after_server_socket s addr port (none, env) = ok (false, give_up s, env)
  after_server_socket s addr port (some fd, env) = after_reuseaddr s addr port fd (
    (sys.setsockopt env.kernel fd reuseaddr).0,
    with_kernel env (sys.setsockopt env.kernel fd reuseaddr).1,
  )

  -- `TcpSocket::OpenServer(addr, port, AF_INET)`
  unfoldable pub open_server : Socket → String → ℕ → Env sys → Result Opened
  unfolding after_server_socket
  open_server s addr port env =
      if not (can_open s.state)
      then ok (false, set_err s state_err, env)
      else (guard (not (sys.asserts && is_open s.listener.fd)) assertion
          >> after_server_socket s addr port
              ((sys.socket env.kernel).0, with_kernel env (sys.socket env.kernel).1))

  -- `OpenClient` after `SetEvents`
  after_client_events : Socket → String → ℕ → Bool × Env sys → Result Opened
  after_client_events s addr port (true, env) =
      ok (true, record s { peer_addr = addr; peer_port = port }, env)
  after_client_events s addr port (false, env) = reset (give_up s) env >>= λ r. ok (false, r.0, r.1)

  -- from `SetState(State::CONNECTING)` on
  pub start_client : Socket → String → ℕ → ℕ → Env sys → Result Opened
  unfolding after_client_events
  start_client s addr port fd env = do
    (started, l, env') ← start sys s.listener fd env
    r ← set_events sys l in_out_err_hup env'
    after_client_events (set_listener (set_state s connecting) l) addr port r

  after_connect : Socket → String → ℕ → ℕ → ConnectReply × Env sys → Result Opened
  unfolding drop_fd start_client
  after_connect s addr port fd (done, env) = start_client s addr port fd env
  after_connect s addr port fd (in_progress, env) = start_client s addr port fd env
  after_connect s addr port fd (ConnectReply.failed, env) = ok (drop_fd s fd env)

  connect_client : Socket → String → ℕ → ℕ → Env sys → Result Opened
  unfolding after_connect
  connect_client s addr port fd env = after_connect s addr port fd (
    (sys.connect env.kernel fd addr port).0,
    with_kernel env (sys.connect env.kernel fd addr port).1,
  )

  -- Each option in turn: the first that fails ends the call.
  set_options : List SockOpt → Socket → String → ℕ → ℕ → Env sys → Result Opened
  unfolding drop_fd connect_client
  set_options [] s addr port fd env = connect_client s addr port fd env
  set_options (opt ∷ opts) s addr port fd env =
      let rest =
        set_options opts s addr port fd (with_kernel env (sys.setsockopt env.kernel fd opt).1) in
      if is_zero (sys.setsockopt env.kernel fd opt).0
      then rest
      else ok (drop_fd s fd (with_kernel env (sys.setsockopt env.kernel fd opt).1))

  after_client_socket : Socket → String → ℕ → Option ℕ × Env sys → Result Opened
  unfolding set_options
  after_client_socket s addr port (none, env) = ok (false, give_up s, env)
  after_client_socket s addr port (some fd, env) =
      set_options (sndbuf ∷ nodelay ∷ quickack ∷ []) s addr port fd env

  -- `TcpSocket::OpenClient(peer_addr, peer_port, AF_INET)`
  unfoldable pub open_client : Socket → String → ℕ → Env sys → Result Opened
  unfolding after_client_socket
  open_client s addr port env =
      if not (can_open s.state)
      then ok (false, set_err s state_err, env)
      else (guard (not (sys.asserts && is_open s.listener.fd)) assertion
          >> after_client_socket s addr port
              ((sys.socket env.kernel).0, with_kernel env (sys.socket env.kernel).1))
