-- ===== src/Tcp/Accept.antt =====
-- src/xma_socket.cpp: `TcpSocket::Accept`, with the constructor and the destructor of a stream that it
-- uses. `OnCreate` and `OnAccept` are virtual and so parameters.
pub mod Drain
pub mod Round
pub mod Count
use cpp_readline.Common.{
  ℕ, zero, suc, Option, none, some, Bool, true, false, if◌then◌else◌, not, ◌==◌, ℤ, pos, negsuc,
  Result, ok, fault, out_of_fuel, ◌>>=◌,
}
use cpp_readline.Sys.{Sys, nodelay, in_err_hup}
use cpp_readline.Epoll.{Env, new_listener, start, set_events}
use cpp_readline.SocketBuff.{init}
use cpp_readline.Socket.{
  Socket, connected, created, no_err, set_state, count_one, reset_stats, max_buf_len_of,
}
use cpp_readline.Machine.{store_addr_info}
use cpp_readline.Tcp.{set_listener, init_stream}
use cpp_readline.Tcp.Release.{delete_stream}

-- `StreamSocket(name, c, len)` with its bases: `now` is the time, `port` and `peer_port` are what the
-- memory of the two fields held, and `tx_rate` multiplies by 0.7 in `double`.
unfoldable pub new_stream : (ℕ → ℕ) → (now port peer_port len : ℕ) → Result Socket
unfolding new_listener
new_stream tx_rate now port peer_port len = do
  rx ← init (λ n. n) (max_buf_len_of len)
  tx ← init tx_rate (max_buf_len_of len)
  ok (
      init_stream (record {
        listener = new_listener none;
        stats = reset_stats now;
        port = port;
        peer_port = peer_port;
        addr = "";
        peer_addr = "";
        state = created;
        last_err = no_err;
        create_timestamp = now;
        buff_len = none;
        rx_buff = rx;
        tx_buff = tx;
      }))

-- `ret != 1` of an `int`
abbrev is_not_one : ℤ → Bool
is_not_one (pos n) = not (n == 1)
is_not_one (negsuc n) = true

count_accepted : Socket → Socket
count_accepted s = record s { stats = record s.stats { accepted = count_one s.stats.accepted } }

count_accept_failed : Socket → Socket
count_accept_failed s = record s {
  stats = record s.stats { accepted_failed = count_one s.stats.accepted_failed };
}

-- `A` is the state of the application that `OnAccept` belongs to.
module _ (sys : Sys) (A : Type 0) where
  -- `OnCreate(fd)` is a `new` of a stream; `OnAccept` may keep the stream and use the kernel.
  pub record Application : Type 0 where
    pub on_create : ℕ → Result Socket
    pub on_accept : Socket → A → Env sys → Result (Bool × A × Env sys)

  abbrev pub Accepting : Type 0
  Accepting = Socket × A × Env sys

  -- `delete sock`, after which the loop goes on
  drop_stream : Socket → Socket → A → Env sys → Result Accepting
  unfolding count_accept_failed
  drop_stream s sock a env =
      delete_stream sys sock env >>= λ env'. ok (count_accept_failed s, a, env')

  after_on_accept : Socket → Socket → Bool × A × Env sys → Result Accepting
  unfolding drop_stream count_accepted
  after_on_accept s sock (true, a, env) = ok (count_accepted s, a, env)
  after_on_accept s sock (false, a, env) = drop_stream s sock a env

  after_events : Application → Socket → Socket → A → Bool × Env sys → Result Accepting
  unfolding after_on_accept drop_stream
  after_events app s sock a (true, env) = app.on_accept sock a env >>= after_on_accept s sock
  after_events app s sock a (false, env) = drop_stream s sock a env

  -- the body of the loop, after setsockopt(2)
  welcome : Application → Socket → ℕ → A → Env sys → Result Accepting
  unfolding after_events
  welcome app s fd a env = do
    sock ← app.on_create fd
    (started, l, env') ← start sys sock.listener fd env
    let named = set_state (store_addr_info sys (set_listener sock l) env').1 connected
    r ← set_events sys named.listener in_err_hup env'
    after_events app s named a r

  pub after_accept : Application → Socket → ℕ → ℤ × sys.Kernel → A → Env sys → Result Accepting
  unfolding welcome count_accept_failed
  after_accept app s fd (ret, k) a env =
      if is_not_one ret
      then welcome app s fd a (record env { kernel = k })
      else ok (count_accept_failed s, a, record env { kernel = k })

  next_connection :
      (Socket → A → Env sys → Result Accepting)
      → Application
      → Socket
      → Option ℕ × sys.Kernel
      → A
      → Env sys
      → Result Accepting
  unfolding after_accept
  next_connection rest app s (none, k) a env = ok (s, a, record env { kernel = k })
  next_connection rest app s (some fd, k) a env =
      after_accept app s fd (sys.setsockopt k fd nodelay) a env >>= λ r. rest r.0 r.1 r.2

  -- `Accept`, where `fuel` is more than the connections that accept4(2) gives before it gives -1
  unfoldable pub accept : ℕ → Application → Socket → A → Env sys → Result Accepting
  unfolding next_connection
  accept zero app s a env = fault out_of_fuel
  accept (suc fuel) app s a env =
      let rest = accept fuel app in
      next_connection rest app s (sys.accept env.kernel s.listener.fd) a env
