-- ===== src/Stream/Rx.antt =====
-- The reading side: `DoRead`, `ReadMsg`, `OnRead` and `Read`. The bytes that `ReadMsg` copies to the
-- caller are part of its result.
pub mod Flow
pub mod Whole
use cpp_readline.Common.{
  ℕ, ◌+◌, ◌-◌, ◌*◌, ◌%◌, ◌^◌, List, [], ◌∷◌, Bool, true, false, ltb, leb, ◌==◌, if◌then◌else◌, ◌&&◌,
  ◌||◌, not, length, Option, none, some, ℤ, pos, negsuc, is_neg, add_u64, Result, ok, fault,
  assertion, ◌>>=◌, ◌>>◌, guard,
}
use cpp_readline.Memory.{Cell, new_char, mem_copy}
use cpp_readline.Sys.{Sys, RecvReply, received}
use cpp_readline.SocketBuff.{SocketBuff, get_free_len, set_index, add_index}
use cpp_readline.Epoll.{Env}
use cpp_readline.Socket.{
  Socket, Error, param_err, not_ready, read_fail, peer_closed, count_one, is_stream_ready, set_err,
}
use cpp_readline.Stream.Tx.Cache.{minus_one}
use cpp_readline.Stream.Tx.{assert_state}

-- MAX_STREAM_READ, 10 << 20
abbrev pub max_stream_read : ℕ
max_stream_read = 10 * 2 ^ 20

-- Where `recv` stores: past the contents of `rx_buff`, or in the static array of `OnRead`.
pub data Dest : Type 0 where
  rx_cache fake : Dest

pub store : Dest → SocketBuff → List Cell → Result SocketBuff
store rx_cache b bytes =
    mem_copy b.buf b.index bytes 0 (length bytes) >>= λ buf. ok (record b { buf = buf })
store fake b bytes = ok b

-- `rx_buff.addIndex(ret); stats_.rx_bytes += ret`
take_in : Socket → ℕ → SocketBuff → Socket
take_in s n rx = record s {
  rx_buff = rx;
  stats = record s.stats { rx_bytes = add_u64 s.stats.rx_bytes n };
}

count_recv_failed : Socket → Socket
count_recv_failed s = record s {
  last_err = read_fail;
  stats = record s.stats { rx_err = count_one s.stats.rx_err };
}

count_closed : Socket → Socket
count_closed s = record s {
  last_err = peer_closed;
  stats = record s.stats { closed_by_peer = count_one s.stats.closed_by_peer };
}

-- `DoRead` after `::recv`
pub after_recv : Dest → Socket → RecvReply → Result (ℤ × Socket)
unfolding take_in count_recv_failed count_closed
after_recv dest s RecvReply.retry = ok (pos 0, s)
after_recv dest s RecvReply.failed = ok (minus_one, count_recv_failed s)
after_recv dest s (received []) = ok (minus_one, count_closed s)
after_recv dest s (received (c ∷ bytes)) = do
  stored ← store dest s.rx_buff (c ∷ bytes)
  rx ← add_index stored (length (c ∷ bytes))
  ok (pos (length (c ∷ bytes)), take_in s (length (c ∷ bytes)) rx)

count_rx_err : Socket → Socket
count_rx_err s = record s { stats = record s.stats { rx_err = count_one s.stats.rx_err } }

count_rx_cache : Socket → ℕ → Socket
count_rx_cache s n = record s {
  stats = record s.stats {
    rx_cache = count_one s.stats.rx_cache;
    rx_cache_bytes = add_u64 s.stats.rx_cache_bytes n;
  };
}

-- What `OnRead` adds to the counters of `DoRead`
count_fake : Socket → ℕ → Socket
count_fake s n = record s {
  stats = record s.stats {
    rx_pkts = count_one s.stats.rx_pkts;
    rx_bytes = add_u64 s.stats.rx_bytes n;
  };
}

-- The message is taken from the front: the rest moves down.
pub taken_out : Socket → ℕ → SocketBuff → Socket
taken_out s left rx = record s {
  rx_buff = set_index rx left;
  stats = record s.stats {
    rx_pkts = count_one s.stats.rx_pkts;
    rx_oops = if ltb 0 left then count_one s.stats.rx_oops else s.stats.rx_oops;
    rx_oops_bytes =
        if ltb 0 left then add_u64 s.stats.rx_oops_bytes left else s.stats.rx_oops_bytes;
  };
}

move_down : SocketBuff → ℕ → ℕ → Result SocketBuff
move_down rx len left =
    if ltb 0 left
    then (mem_copy rx.buf 0 rx.buf len left >>= λ buf. ok (record rx { buf = buf }))
    else ok rx

-- The result of `ReadMsg`: its `int`, and what it copied to `msg`.
abbrev pub Read : Type 0
Read = ℤ × Option (List Cell)

-- `ReadMsg` from `data_len` on
pub deliver : Socket → ℕ → Result (Read × Socket)
unfolding taken_out move_down
deliver s len =
    if leb len s.rx_buff.index
    then (do
      msg ← mem_copy (new_char len) 0 s.rx_buff.buf 0 len
      rx ← move_down s.rx_buff len (s.rx_buff.index - len)
      ok ((pos len, some msg), taken_out s (s.rx_buff.index - len) rx))
    else ok ((pos 0, none), s)

-- `ReadMsg` after `DoRead`
pub after_do_read : ℕ → ℤ × Socket → Result (Read × Socket)
unfolding deliver count_rx_err count_rx_cache
after_do_read len (negsuc n, s) = ok ((negsuc n, none), count_rx_err s)
after_do_read len (pos n, s) = deliver (if ltb 0 n then count_rx_cache s n else s) len

module _ (sys : Sys) where
  pub do_recv : Dest → Socket → ℕ → Env sys → Result (ℤ × Socket × Env sys)
  do_recv dest s n env = after_recv dest s (sys.recv env.kernel s.listener.fd n).0 >>= λ r.
      ok (r.0, r.1, record env { kernel = (sys.recv env.kernel s.listener.fd n).1 })

  -- `DoRead(buff, n)`; its callers pass an array and a positive length
  unfoldable pub do_read : Dest → Socket → ℕ → Env sys → Result (ℤ × Socket × Env sys)
  unfolding do_recv
  do_read dest s n env = assert_state sys s >> do_recv dest s n env

  pub read_ready : Socket → ℕ → Env sys → Result (Read × Socket × Env sys)
  read_ready s len env =
      if ltb 0 (get_free_len s.rx_buff)
      then (do_read rx_cache s (get_free_len s.rx_buff) env >>= λ r.
          after_do_read len (r.0, r.1) >>= λ q. ok (q.0, q.1, r.2))
      else (deliver s len >>= λ q. ok (q.0, q.1, env))

  -- `ReadMsg(msg, len)`, with whether `msg` is a null pointer
  unfoldable pub read_msg : Bool → Socket → ℕ → Env sys → Result (Read × Socket × Env sys)
  unfolding read_ready
  read_msg is_null s len env =
      if is_null || len == 0 || ltb max_stream_read len
      then ok ((pos 0, none), set_err s param_err, env)
      else if not (is_stream_ready s.state)
      then ok ((pos 0, none), set_err s not_ready, env)
      else read_ready s len env

  after_fake : ℤ × Socket × Env sys → Bool × Socket × Env sys
  unfolding count_rx_err count_fake
  after_fake (negsuc n, s, env) = (false, count_rx_err s, env)
  after_fake (pos n, s, env) = (true, (if ltb 0 n then count_fake s n else s), env)

  -- `StreamSocket::OnRead`, of a stream with no receiver
  unfoldable pub on_read : Socket → Env sys → Result (Bool × Socket × Env sys)
  unfolding after_fake
  on_read s env = do_read fake s 512 env >>= λ r. ok (after_fake r)

  -- `StreamSocket::Read`: the receiver's `Handle`, where there is one
  abbrev pub Receiver : Type 0
  Receiver = Socket → Env sys → Result (Bool × Socket × Env sys)

  unfoldable pub read : Option Receiver → Socket → Env sys → Result (Bool × Socket × Env sys)
  read none s env = on_read s env
  read (some receiver) s env = receiver s env
