-- ===== src/Machine.antt =====
-- src/xma_socket.cpp: `Socket::DoHandle`, the state machine that an epoll event drives. What the
-- source leaves to virtual functions is a parameter, but for `GetContainer()->OnSocketErr(this)`:
-- it is always the last thing done, so a run that calls it ends with `reported`.
pub mod Names
pub mod Laws
pub mod Live
pub mod Reports
use Prim.Native.String.{String}
use cpp_readline.Common.{
  ℕ, Option, none, some, Bool, true, false, if◌then◌else◌, ◌&&◌, ◌||◌, not, Result, ok, fault,
  ◌>>=◌,
}
use cpp_readline.Sys.{Sys, Events, in_err_hup, SoError, call_failed, pending, clear, broken}
use cpp_readline.Epoll.{Env, set_events}
use cpp_readline.Socket.{
  Socket, State, created, listening, connecting, connected, full, failed, Error, sys_err, read_fail,
  write_fail, state_err, unknown_event, set_err, set_state,
}
use cpp_readline.Stream.Tx.{write}
use cpp_readline.Stream.Rx.{Receiver, read}

-- The end of a handler: it returned its `bool`, or it called the container's `OnSocketErr`.
pub data Handled (sys : Sys) : Type 0 where
  returned : Bool → Socket → Env sys → Handled sys
  reported : Socket → Env sys → Handled sys

-- The virtual functions that `DoHandle` calls.
pub record Virtuals (sys : Sys) : Type 0 where
  pub receiver : Option (Receiver sys)
  pub accept : Socket → Env sys → Result (Bool × Socket × Env sys)
  pub on_connected : Socket → Env sys → Result (Bool × Socket × Env sys)

-- The parts of `StoreAddrInfo` that use the answers of the two calls
store_own : Socket → String × ℕ → Socket
store_own s (addr, port) = record s { addr = addr; port = port }

store_peer : Socket → String × ℕ → Socket
store_peer s (addr, port) = record s { peer_addr = addr; peer_port = port }

store_names : Socket → Option (String × ℕ) → Option (String × ℕ) → Bool × Socket
unfolding store_own store_peer
store_names s none peer = (false, s)
store_names s (some own) none = (false, store_own s own)
store_names s (some own) (some peer) = (true, store_peer (store_own s own) peer)

module _ (sys : Sys) where
  -- `Socket::StoreAddrInfo`
  unfoldable pub store_addr_info : Socket → Env sys → Bool × Socket
  unfolding store_names
  store_addr_info s env =
      store_names s (sys.getsockname env.kernel s.listener.fd)
        (sys.getpeername env.kernel s.listener.fd)

  end_with : Bool × Socket × Env sys → Handled sys
  end_with (b, s, env) = returned b s env

  -- `events & (~(EPOLLIN | EPOLLOUT))`
  abbrev pub has_other : Events → Bool
  has_other ev = ev.epollerr || (ev.epollhup || ev.others)

  unfoldable pub check_other : Events → Socket → Env sys → Handled sys
  check_other ev s env =
      if has_other ev then reported (set_err s unknown_event) env else returned true s env

  unfoldable pub after_write : Events → Bool × Socket × Env sys → Handled sys
  unfolding check_other
  after_write ev (true, s, env) = check_other ev s env
  after_write ev (false, s, env) = reported (set_err s write_fail) env

  unfoldable pub then_write : Events → Socket → Env sys → Result (Handled sys)
  unfolding after_write check_other
  then_write ev s env =
      if ev.epollout
      then (write sys s env >>= λ r. ok (after_write ev r))
      else ok (check_other ev s env)

  unfoldable pub after_read : Events → Bool × Socket × Env sys → Result (Handled sys)
  unfolding then_write
  after_read ev (true, s, env) = then_write ev s env
  after_read ev (false, s, env) = ok (reported (set_err s read_fail) env)

  -- `Socket::DoReadWrite`
  unfoldable pub do_read_write : Virtuals sys → Events → Socket → Env sys → Result (Handled sys)
  unfolding after_read then_write
  do_read_write v ev s env =
      if ev.epollin then (read sys v.receiver s env >>= after_read ev) else then_write ev s env

  -- `Socket::DoListen`
  pub do_listen : Virtuals sys → Events → Socket → Env sys → Result (Handled sys)
  unfolding end_with
  do_listen v ev s env =
      if ev.epollin
      then (v.accept s env >>= λ r. ok (end_with r))
      else ok (reported (set_err s unknown_event) env)

  -- `DoConnect` once the connection stands; the result of `SetEvents` is not looked at
  finish_connect : Virtuals sys → Socket → Env sys → Result (Handled sys)
  unfolding end_with
  finish_connect v s env = do
    let t = set_state (store_addr_info s env).1 connected
    r ← set_events sys t.listener in_err_hup env
    q ← v.on_connected t r.1
    ok (end_with q)

  after_so_error : Virtuals sys → Socket → SoError → Env sys → Result (Handled sys)
  unfolding finish_connect
  after_so_error v s call_failed env = ok (reported (set_err s sys_err) env)
  after_so_error v s pending env = ok (returned true s env)
  after_so_error v s broken env = ok (reported (set_err s sys_err) env)
  after_so_error v s clear env = finish_connect v s env

  -- `Socket::DoConnect`
  pub do_connect : Virtuals sys → Events → Socket → Env sys → Result (Handled sys)
  unfolding after_so_error
  do_connect v ev s env =
      if ev.epollin || ev.epollout
      then after_so_error v s (sys.so_error env.kernel s.listener.fd).0
          (record env { kernel = (sys.so_error env.kernel s.listener.fd).1 })
      else ok (reported (set_err s unknown_event) env)

  -- the `switch` of `DoHandle`
  unfoldable pub dispatch : Virtuals sys → State → Events → Socket → Env sys → Result (Handled sys)
  unfolding do_listen do_connect do_read_write
  dispatch v listening ev s env = do_listen v ev s env
  dispatch v connecting ev s env = do_connect v ev s env
  dispatch v full ev s env = do_read_write v ev s env
  dispatch v connected ev s env = do_read_write v ev s env
  dispatch v failed ev s env = ok (reported (set_err s state_err) env)
  dispatch v created ev s env = ok (reported (set_err s state_err) env)

  -- `Socket::DoHandle`, for an event that carries this socket
  unfoldable pub do_handle : Virtuals sys → Events → Socket → Env sys → Result (Handled sys)
  unfolding dispatch
  do_handle v ev s env = dispatch v s.state ev s env
