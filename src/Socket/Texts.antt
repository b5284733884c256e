-- ===== src/Socket/Texts.antt =====
-- src/xma_socket.cpp: the texts of a socket: `GetStrState`, `GetStrErr` and the lines of `ShowStats`, each
-- a label and a number.
use cpp_readline.Common.{ℕ, bytes, List, [], ◌∷◌, Option, none, some, if◌then◌else◌, ◌≡◌, refl}
use cpp_readline.Shell.{Str, str_eq}
use cpp_readline.Socket.{
  State, created, listening, connecting, connected, full, failed, Error, no_err, sys_err, param_err,
  no_space, peer_closed, read_fail, write_fail, state_err, not_ready, unknown_event, SocketStats,
}

-- `GetStrState`
unfoldable pub get_str_state : State → Str
get_str_state created = bytes "State::CREATED"
get_str_state full = bytes "State::FULL"
get_str_state listening = bytes "State::LISTENING"
get_str_state connecting = bytes "State::CONNECTING"
get_str_state connected = bytes "State::CONNECTED"
get_str_state failed = bytes "State::FAILED"

-- `GetStrErr`
unfoldable pub get_str_err : Error → Str
get_str_err no_err = bytes "Error::NO_ERR"
get_str_err sys_err = bytes "Error::SYS_ERR"
get_str_err no_space = bytes "Error::NO_SPACE"
get_str_err read_fail = bytes "Error::READ_FAIL"
get_str_err param_err = bytes "Error::PARAM_ERR"
get_str_err write_fail = bytes "Error::WRITE_FAIL"
get_str_err state_err = bytes "Error::STATE_ERR"
get_str_err peer_closed = bytes "Error::PEER_CLOSED"
get_str_err not_ready = bytes "Error::NOT_READY"
get_str_err unknown_event = bytes "Error::UNKNOWN_EVENT"

-- a line of `ShowStats`
abbrev pub Line : Type 0
Line = Str × ℕ

-- `ShowStats`
unfoldable pub show_stats : SocketStats → List Line
show_stats s =
    (bytes "rx_pkts", s.rx_pkts)
    ∷ (bytes "tx_pkts", s.tx_pkts)
    ∷ (bytes "rx_bytes", s.rx_bytes)
    ∷ (bytes "tx_bytes", s.tx_bytes)
    ∷ (bytes "rx_pkts_err", s.rx_pkts_err)
    ∷ (bytes "tx_pkts_err", s.tx_pkts_err)
    ∷ (bytes "rx_bytes_err", s.rx_bytes_err)
    ∷ (bytes "tx_bytes_err", s.tx_bytes_err)
    ∷ (bytes "rx_err", s.rx_err)
    ∷ (bytes "tx_err", s.tx_err)
    ∷ (bytes "tx_partial", s.tx_partial)
    ∷ (bytes "tx_eagin", s.tx_eagin)
    ∷ (bytes "tx_cache", s.tx_cache)
    ∷ (bytes "tx_cache_bytes", s.tx_cache_bytes)
    ∷ (bytes "tx_direct", s.tx_direct)
    ∷ (bytes "buff_full", s.buff_full)
    ∷ (bytes "accepted", s.accepted)
    ∷ (bytes "accepted_failed", s.accepted_failed)
    ∷ (bytes "closed_by_peer", s.closed_by_peer)
    ∷ (bytes "rx_cache", s.rx_cache)
    ∷ (bytes "rx_cache_bytes", s.rx_cache_bytes)
    ∷ (bytes "rx_direct", s.rx_direct)
    ∷ (bytes "rx_dropped", s.rx_dropped)
    ∷ (bytes "rx_dropped_bytes", s.rx_dropped_bytes)
    ∷ (bytes "rx_oops", s.rx_oops)
    ∷ (bytes "rx_oops_bytes", s.rx_oops_bytes)
    ∷ (bytes "initiative_closed", s.initiative_closed)
    ∷ []

-- the value that a list has for a text, where it has one
pub look_up : {V : Type 0} → Str → List (Str × V) → Option V
look_up key [] = none
look_up key ((text, v) ∷ rest) =
    let more = look_up key rest in if str_eq text key then some v else more

-- what a reader of the texts takes them for
pub states : List (Str × State)
unfolding get_str_state
states =
    (get_str_state created, created)
    ∷ (get_str_state full, full)
    ∷ (get_str_state listening, listening)
    ∷ (get_str_state connecting, connecting)
    ∷ (get_str_state connected, connected)
    ∷ (get_str_state failed, failed)
    ∷ []

pub errors : List (Str × Error)
unfolding get_str_err
errors =
    (get_str_err no_err, no_err)
    ∷ (get_str_err sys_err, sys_err)
    ∷ (get_str_err no_space, no_space)
    ∷ (get_str_err read_fail, read_fail)
    ∷ (get_str_err param_err, param_err)
    ∷ (get_str_err write_fail, write_fail)
    ∷ (get_str_err state_err, state_err)
    ∷ (get_str_err peer_closed, peer_closed)
    ∷ (get_str_err not_ready, not_ready)
    ∷ (get_str_err unknown_event, unknown_event)
    ∷ []

or_zero : Option ℕ → ℕ
or_zero none = 0
or_zero (some n) = n

number : List Line → Str → ℕ
unfolding or_zero look_up
number lines label = or_zero (look_up label lines)

-- the counters that are read from lines, with the time of the last reset, which is not shown
pub read_stats : ℕ → List Line → SocketStats
unfolding number
read_stats reset_time lines = record {
  rx_pkts = number lines (bytes "rx_pkts");
  tx_pkts = number lines (bytes "tx_pkts");
  rx_bytes = number lines (bytes "rx_bytes");
  tx_bytes = number lines (bytes "tx_bytes");
  rx_pkts_err = number lines (bytes "rx_pkts_err");
  tx_pkts_err = number lines (bytes "tx_pkts_err");
  rx_bytes_err = number lines (bytes "rx_bytes_err");
  tx_bytes_err = number lines (bytes "tx_bytes_err");
  rx_err = number lines (bytes "rx_err");
  tx_err = number lines (bytes "tx_err");
  tx_partial = number lines (bytes "tx_partial");
  tx_eagin = number lines (bytes "tx_eagin");
  tx_cache = number lines (bytes "tx_cache");
  tx_cache_bytes = number lines (bytes "tx_cache_bytes");
  tx_direct = number lines (bytes "tx_direct");
  buff_full = number lines (bytes "buff_full");
  accepted = number lines (bytes "accepted");
  accepted_failed = number lines (bytes "accepted_failed");
  closed_by_peer = number lines (bytes "closed_by_peer");
  rx_cache = number lines (bytes "rx_cache");
  rx_cache_bytes = number lines (bytes "rx_cache_bytes");
  rx_direct = number lines (bytes "rx_direct");
  rx_dropped = number lines (bytes "rx_dropped");
  rx_dropped_bytes = number lines (bytes "rx_dropped_bytes");
  rx_oops = number lines (bytes "rx_oops");
  rx_oops_bytes = number lines (bytes "rx_oops_bytes");
  initiative_closed = number lines (bytes "initiative_closed");
  reset_time = reset_time;
}

-- The text of a state tells the state.
pub get_str_state_lem : (s : State) → look_up (get_str_state s) states ≡ some s
unfolding get_str_state states look_up str_eq
get_str_state_lem created = refl
get_str_state_lem full = refl
get_str_state_lem listening = refl
get_str_state_lem connecting = refl
get_str_state_lem connected = refl
get_str_state_lem failed = refl

-- The text of an error tells the error.
pub get_str_err_lem : (e : Error) → look_up (get_str_err e) errors ≡ some e
unfolding get_str_err errors look_up str_eq
get_str_err_lem no_err = refl
get_str_err_lem sys_err = refl
get_str_err_lem no_space = refl
get_str_err_lem read_fail = refl
get_str_err_lem param_err = refl
get_str_err_lem write_fail = refl
get_str_err_lem state_err = refl
get_str_err_lem peer_closed = refl
get_str_err_lem not_ready = refl
get_str_err_lem unknown_event = refl

-- Every counter can be read back from the lines of `ShowStats` by its label.
pub show_stats_lem : (s : SocketStats) → read_stats s.reset_time (show_stats s) ≡ s
unfolding show_stats read_stats str_eq
show_stats_lem s = refl
