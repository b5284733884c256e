-- ===== src/Stream/Tx/Cache.antt =====
-- DO_CACHE_MSG and what `WriteMsg` does once `::send` of the message itself has answered.
use cpp_readline.Common.{
  ℕ, ◌+◌, ◌-◌, ◌%◌, ◌^◌, List, Bool, true, false, ltb, if◌then◌else◌, length, drop, ℤ, pos, negsuc,
  add_u64, Result, ok, ◌>>=◌,
}
use cpp_readline.Memory.{Cell}
use cpp_readline.Sys.{SendReply, sent}
use cpp_readline.SocketBuff.{SocketBuff, copy_buf, check_can_op}
use cpp_readline.Socket.{Socket, SocketStats, full, sys_err, no_space, count_one}

-- The result -1
abbrev pub minus_one : ℤ
minus_one = negsuc 0

-- The part of DO_CACHE_MSG after a copy that succeeded
unfoldable pub note_cached : Socket → List Cell → ℕ → SocketBuff × Bool → ℤ × Socket
note_cached s msg len (tx, below) = (pos len, record t { stats = stats })
  where
    t : Socket
    t = record s { tx_buff = tx; state = if below then s.state else full }

    stats : SocketStats
    stats = record s.stats {
      tx_cache_bytes = add_u64 s.stats.tx_cache_bytes (length msg);
      tx_cache = count_one s.stats.tx_cache;
      buff_full = if below then s.stats.buff_full else count_one s.stats.buff_full;
      tx_pkts = count_one s.stats.tx_pkts;
    }

unfoldable pub after_copy : Socket → List Cell → ℕ → SocketBuff × Bool → Result (ℤ × Socket)
unfolding note_cached
after_copy s msg len (tx, true) = check_can_op tx 0 >>= λ r. ok (note_cached s msg len r)
after_copy s msg len (tx, false) = ok (
  minus_one,
  record s {
    tx_buff = tx;
    last_err = no_space;
    stats = record s.stats {
      tx_err = count_one s.stats.tx_err;
      tx_bytes_err = add_u64 s.stats.tx_bytes_err (length msg);
    };
  },
)

-- DO_CACHE_MSG(msg, length msg) in a call of `WriteMsg` with the length `len`
unfoldable pub cache_msg : Socket → List Cell → ℕ → Result (ℤ × Socket)
unfolding after_copy
cache_msg s msg len = copy_buf s.tx_buff msg >>= after_copy s msg len

-- After `::send` of the message itself
unfoldable pub after_partial : ℕ → ℤ × Socket → ℤ × Socket
after_partial len (pos ret, s) =
    if ltb 0 ret
    then (
      pos ret,
      record s {
        stats = record s.stats {
          tx_bytes = add_u64 s.stats.tx_bytes ((len + 2 ^ 32 - ret) % 2 ^ 32);
        };
      },
    )
    else (pos ret, s)
after_partial len (negsuc n, s) = (negsuc n, s)

unfoldable pub count_direct : Socket → ℕ → Socket
count_direct s len = record s {
  stats = record s.stats {
    tx_direct = count_one s.stats.tx_direct;
    tx_pkts = count_one s.stats.tx_pkts;
    tx_bytes = add_u64 s.stats.tx_bytes len;
  };
}

unfoldable pub count_send_failed : Socket → ℕ → Socket
count_send_failed s len = record s {
  last_err = sys_err;
  stats = record s.stats {
    tx_err = count_one s.stats.tx_err;
    tx_bytes_err = add_u64 s.stats.tx_bytes_err len;
  };
}

unfoldable pub after_direct : Socket → List Cell → SendReply → Result (ℤ × Socket)
unfolding after_partial count_direct count_send_failed
after_direct s msg SendReply.retry = cache_msg s msg (length msg)
after_direct s msg SendReply.failed = ok (minus_one, count_send_failed s (length msg))
after_direct s msg (sent ret) =
    if ltb ret (length msg)
    then (cache_msg s (drop ret msg) (length msg) >>= λ r. ok (after_partial (length msg) r))
    else ok (pos ret, count_direct s (length msg))
