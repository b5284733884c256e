-- ===== src/Socket.antt =====
-- src/xma_socket.h: the state of a socket. The classes `Socket`, `StreamSocket` and `TcpSocket` are
-- one object, so one record. The receiver is an argument of the operations that call it.
pub mod Texts
use Prim.Native.String.{String}
use cpp_readline.Common.{
  ℕ, ◌+◌, ◌*◌, ◌%◌, ◌^◌, Option, Bool, true, false, ltb, if◌then◌else◌, add_u64, int_limit,
}
use cpp_readline.SocketBuff.{SocketBuff}
use cpp_readline.Epoll.{EpollListener}

-- Socket::State
pub data State : Type 0 where
  created listening connecting connected full failed : State

-- Socket::Error
pub data Error : Type 0 where
  no_err sys_err param_err no_space peer_closed read_fail write_fail state_err not_ready
        unknown_event :
      Error

-- The fields are `uint64_t`, but for `reset_time`, a `uint32_t`.
pub record SocketStats : Type 0 where
  pub rx_pkts : ℕ
  pub tx_pkts : ℕ
  pub rx_bytes : ℕ
  pub tx_bytes : ℕ
  pub rx_pkts_err : ℕ
  pub tx_pkts_err : ℕ
  pub rx_bytes_err : ℕ
  pub tx_bytes_err : ℕ
  pub tx_err : ℕ
  pub rx_err : ℕ
  pub tx_partial : ℕ
  pub tx_eagin : ℕ
  pub tx_cache : ℕ
  pub tx_cache_bytes : ℕ
  pub tx_direct : ℕ
  pub buff_full : ℕ
  pub accepted : ℕ
  pub accepted_failed : ℕ
  pub closed_by_peer : ℕ
  pub rx_cache : ℕ
  pub rx_cache_bytes : ℕ
  pub rx_direct : ℕ
  pub rx_dropped : ℕ
  pub rx_dropped_bytes : ℕ
  pub rx_oops : ℕ
  pub rx_oops_bytes : ℕ
  pub initiative_closed : ℕ
  pub reset_time : ℕ

-- `buff_len` is `none` until something is stored in it, which no constructor does.
pub record Socket : Type 0 where
  pub listener : EpollListener
  pub stats : SocketStats
  pub port : ℕ
  pub peer_port : ℕ
  pub addr : String
  pub peer_addr : String
  pub state : State
  pub last_err : Error
  pub create_timestamp : ℕ
  pub buff_len : Option ℕ
  pub rx_buff : SocketBuff
  pub tx_buff : SocketBuff

-- `ResetStats`, at the time `now`
abbrev pub reset_stats : ℕ → SocketStats
reset_stats now = record {
  rx_pkts = 0;
  tx_pkts = 0;
  rx_bytes = 0;
  tx_bytes = 0;
  rx_pkts_err = 0;
  tx_pkts_err = 0;
  rx_bytes_err = 0;
  tx_bytes_err = 0;
  tx_err = 0;
  rx_err = 0;
  tx_partial = 0;
  tx_eagin = 0;
  tx_cache = 0;
  tx_cache_bytes = 0;
  tx_direct = 0;
  buff_full = 0;
  accepted = 0;
  accepted_failed = 0;
  closed_by_peer = 0;
  rx_cache = 0;
  rx_cache_bytes = 0;
  rx_direct = 0;
  rx_dropped = 0;
  rx_dropped_bytes = 0;
  rx_oops = 0;
  rx_oops_bytes = 0;
  initiative_closed = 0;
  reset_time = now;
}

-- `++` and `+=` of a counter
abbrev pub count_one : ℕ → ℕ
count_one n = add_u64 n 1

abbrev pub is_connected : State → Bool
is_connected connected = true
is_connected _ = false

abbrev pub is_full : State → Bool
is_full full = true
is_full _ = false

-- `State::CONNECTED == s || State::FULL == s`
abbrev pub is_stream_ready : State → Bool
is_stream_ready connected = true
is_stream_ready full = true
is_stream_ready _ = false

abbrev pub set_err : Socket → Error → Socket
set_err s e = record s { last_err = e }

abbrev pub set_state : Socket → State → Socket
set_state s st = record s { state = st }

-- STREAM_RWBUFLEN(len) * 2, in `uint32_t`
abbrev pub stream_rwbuflen_2 : ℕ → ℕ
stream_rwbuflen_2 len = (len * 4 + 256) * 2 % 2 ^ 32

-- The same as the `int` parameter of the buffers. A negative one acts as 0: `expand` never passes it.
abbrev pub max_buf_len_of : ℕ → ℕ
max_buf_len_of len = if ltb (stream_rwbuflen_2 len) int_limit then stream_rwbuflen_2 len else 0
