-- ===== src/Stream/Tx.antt =====
-- src/xma_socket.cpp: `StreamSocket`. A call returns its `int`, the socket and the environment.
-- `len` is the length of the array `msg`.
pub mod Cache
pub mod Flow
pub mod Direct
pub mod Write
pub mod Taken
use cpp_readline.Common.{
  ℕ, zero, suc, ◌+◌, ◌-◌, ◌%◌, ◌^◌, ◌≤◌, List, [], ◌∷◌, Bool, true, false, ltb, leb, ◌==◌,
  if◌then◌else◌, ◌&&◌, ◌||◌, not, length, take, drop, Option, none, some, ℤ, pos, negsuc, is_neg,
  add_u64, Result, ok, fault, assertion, out_of_bounds, ◌>>=◌, ◌>>◌, guard,
}
use Cache.{minus_one, cache_msg, after_direct}
use cpp_readline.Memory.{Cell, new_char, mem_copy}
use cpp_readline.Sys.{Sys, SendReply, sent, RecvReply, received, in_err_hup}
use cpp_readline.SocketBuff.{
  SocketBuff, contents, get_free_len, set_index, copy_buf, check_can_op, shrink_from_front,
  add_index,
}
use cpp_readline.Epoll.{Env, set_events}
use cpp_readline.Socket.{
  Socket, SocketStats, State, connected, full, Error, sys_err, param_err, no_space, not_ready,
  read_fail, peer_closed, count_one, is_connected, is_full, is_stream_ready, set_err, set_state,
}

-- The three ways in which `WriteMsg` refuses before it touches a buffer or after a failed flush
refuse_param : Socket → ℤ × Socket
refuse_param s = (
  minus_one,
  record s {
    last_err = param_err;
    stats = record s.stats { tx_pkts_err = count_one s.stats.tx_pkts_err };
  },
)

count_refused : Socket → ℕ → Socket
count_refused s len = record s {
  stats = record s.stats {
    tx_pkts_err = count_one s.stats.tx_pkts_err;
    tx_bytes_err = add_u64 s.stats.tx_bytes_err len;
  };
}

-- `::send` of the cached bytes was refused
count_eagain : Socket → Socket
count_eagain s = record s { stats = record s.stats { tx_eagin = count_one s.stats.tx_eagin } }

count_tx_err : Socket → Socket
count_tx_err s = record s { stats = record s.stats { tx_err = count_one s.stats.tx_err } }

-- `tx_bytes += ret; shrinkFromFront(ret); tx_partial++`
partly_sent : Socket → ℕ → SocketBuff → Socket
partly_sent s ret tx = record s {
  tx_buff = tx;
  stats = record s.stats {
    tx_bytes = add_u64 s.stats.tx_bytes ret;
    tx_partial = count_one s.stats.tx_partial;
  };
}

-- `GetState() == State::FULL && tx_buff.checkCanOp(0)`
leave_full_partly : Socket → Result Socket
leave_full_partly s =
    if is_full s.state
    then (check_can_op s.tx_buff 0 >>= λ r.
        ok (record s { tx_buff = r.0; state = if r.1 then connected else s.state }))
    else ok s

all_sent : Socket → ℕ → Socket
all_sent s ret = record s {
  tx_buff = set_index s.tx_buff 0;
  state = if is_full s.state then connected else s.state;
  stats = record s.stats { tx_bytes = add_u64 s.stats.tx_bytes ret };
}

module _ (sys : Sys) where
  after_set_events : Socket → ℕ → Bool × Env sys → ℤ × Socket × Env sys
  after_set_events s ret (true, env) = (pos ret, s, env)
  after_set_events s ret (false, env) = (minus_one, set_err s sys_err, env)

  -- `DoWrite` after `::send`
  pub after_flush : Socket → SendReply → Env sys → Result (ℤ × Socket × Env sys)
  unfolding count_eagain count_tx_err partly_sent leave_full_partly all_sent after_set_events
  after_flush s SendReply.retry env = ok (pos 0, count_eagain s, env)
  after_flush s SendReply.failed env = ok (minus_one, count_tx_err s, env)
  after_flush s (sent ret) env =
      if ltb ret s.tx_buff.index
      then (do
        tx ← shrink_from_front s.tx_buff ret
        t ← leave_full_partly (partly_sent s ret tx)
        ok (pos ret, t, env))
      else (do
        r ← set_events sys s.listener in_err_hup env
        ok (after_set_events (all_sent s ret) ret r))

  -- `assert (State::CONNECTED == GetState() || State::FULL != GetState())`
  abbrev pub assert_state : Socket → Result (Unit {0})
  assert_state s =
      guard (not (sys.asserts && not (is_connected s.state || not (is_full s.state)))) assertion

  pub flush : Socket → Env sys → Result (ℤ × Socket × Env sys)
  flush s env =
      after_flush s (sys.send env.kernel s.listener.fd (contents s.tx_buff)).0
        (record env { kernel = (sys.send env.kernel s.listener.fd (contents s.tx_buff)).1 })

  -- `::send` reads the first `index` bytes of the array
  unfoldable pub do_write : Socket → Env sys → Result (ℤ × Socket × Env sys)
  unfolding after_flush flush
  do_write s env =
      assert_state s
      >> (if ltb 0 s.tx_buff.index
          then guard (leb s.tx_buff.index (length s.tx_buff.buf)) out_of_bounds >> flush s env
          else ok (pos 0, s, env))

  -- `StreamSocket::Write`; `OnWrite` returns true
  unfoldable pub write : Socket → Env sys → Result (Bool × Socket × Env sys)
  write s env =
      if not (is_stream_ready s.state)
      then ok (false, set_err s not_ready, env)
      else (do_write s env >>= λ r. ok (not (is_neg r.0), r.1, r.2))

  pub send_direct : Socket → List Cell → Env sys → Result (ℤ × Socket × Env sys)
  send_direct s msg env = after_direct s msg (sys.send env.kernel s.listener.fd msg).0 >>= λ r.
      ok (r.0, r.1, record env { kernel = (sys.send env.kernel s.listener.fd msg).1 })

  -- `WriteMsg` once the cached bytes were tried
  pub queue_or_send : Socket → List Cell → Env sys → Result (ℤ × Socket × Env sys)
  unfolding send_direct
  queue_or_send s msg env =
      if ltb 0 s.tx_buff.index
      then (cache_msg s msg (length msg) >>= λ r. ok (r.0, r.1, env))
      else send_direct s msg env

  pub after_do_write : List Cell → ℤ × Socket × Env sys → Result (ℤ × Socket × Env sys)
  unfolding queue_or_send count_refused
  after_do_write msg (pos ret, s, env) = queue_or_send s msg env
  after_do_write msg (negsuc n, s, env) = ok (minus_one, count_refused s (length msg), env)

  pub write_nonempty : Socket → List Cell → Env sys → Result (ℤ × Socket × Env sys)
  unfolding count_refused
  write_nonempty s msg env =
      if not (is_connected s.state)
      then ok (minus_one, set_err (count_refused s (length msg)) not_ready, env)
      else if ltb 0 s.tx_buff.index
      then (do_write s env >>= after_do_write msg)
      else queue_or_send s msg env

  -- `WriteMsg(msg, len)`; a null pointer is `none`
  unfoldable pub write_msg : Socket → Option (List Cell) → Env sys → Result (ℤ × Socket × Env sys)
  unfolding write_nonempty refuse_param
  write_msg s none env = ok ((refuse_param s).0, (refuse_param s).1, env)
  write_msg s (some []) env = ok ((refuse_param s).0, (refuse_param s).1, env)
  write_msg s (some (c ∷ msg)) env = write_nonempty s (c ∷ msg) env
