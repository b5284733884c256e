-- ===== src/Tests/Fixture.antt =====
-- A kernel with one peer, and a socket in the middle of its work.
use Prim.Native.Nat.{◌/◌}
use cpp_readline.Common.{
  Option, zero, ℕ, ◌*◌, ◌-◌, ◌≤◌, ◌≡◌, refl, sym, ap, Bool, true, List, [], ◌∷◌, ◌++◌, append-nil,
  none, some, false, ◌==◌, if◌then◌else◌, Bool-cases, inl, inr, length, take, drop, length-take,
  replicate, min, arith, pos, suc,
}
use cpp_readline.Memory.{Cell}
use cpp_readline.Sys.{
  ConnectReply, SoError, Sys, FdLaws, SysLaws, Fd, in_err_hup, SendReply, sent, RecvReply, received,
  sent_count, received_bytes,
}
use cpp_readline.SocketBuff.{SocketBuff}
use cpp_readline.SocketBuff.Inv.{Inv}
use cpp_readline.Epoll.{Env}
use cpp_readline.Socket.{Socket, State, created, no_err, reset_stats}
use cpp_readline.Stream.Tx.Direct.{IsOpen}

-- `out` was sent to the peer, `got` received from it, `inbox` waits, and `room` more bytes are
-- taken before `send` answers EAGAIN. The process holds `held` descriptors,
-- and `callers` connections wait.
pub record Net : Type 0 where
  pub out : List Cell
  pub got : List Cell
  pub inbox : List Cell
  pub room : ℕ
  pub held : ℕ
  pub callers : ℕ

abbrev net_send : Net → Fd → List Cell → SendReply × Net
net_send k fd msg = if k.room == 0 then (SendReply.retry, k) else (
  sent (min k.room (length msg)),
  record k {
    out = k.out ++ take (min k.room (length msg)) msg;
    room = k.room - min k.room (length msg);
  },
)

abbrev answer : List Cell → RecvReply
answer [] = RecvReply.retry
answer (c ∷ bytes) = received (c ∷ bytes)

abbrev net_recv : Net → Fd → ℕ → RecvReply × Net
net_recv k fd n =
    (answer (take n k.inbox), record k { got = k.got ++ take n k.inbox; inbox = drop n k.inbox })

abbrev pub take_caller : Net → ℕ → Option ℕ × Net
take_caller k zero = (none, k)
take_caller k (suc n) = (some 7, record k { callers = n; held = suc k.held })

abbrev pub net : Bool → Sys
net asserts = record {
  Kernel = Net;
  asserts = asserts;
  garbage = in_err_hup;
  send = net_send;
  recv = net_recv;
  epoll_ctl = λ k op fd ev. (true, k);
  close = λ k fd. record k { held = k.held - 1 };
  socket = λ k. (some 6, record k { held = suc k.held });
  setsockopt = λ k fd opt. (pos 0, k);
  bind = λ k fd addr port. (true, k);
  listen = λ k fd. (true, k);
  accept = λ k fd. take_caller k k.callers;
  connect = λ k fd addr port. (ConnectReply.in_progress, k);
  so_error = λ k fd. (SoError.clear, k);
  getsockname = λ k fd. some ("127.0.0.1", 9527);
  getpeername = λ k fd. some ("127.0.0.1", 40000);
}

pub received_bytes-answer : (bytes : List Cell) → received_bytes (answer bytes) ≡ bytes
received_bytes-answer [] = refl
received_bytes-answer (c ∷ bytes) = refl

pub net_send-le :
    (k : Net) (fd : Fd) (msg : List Cell) → sent_count (net_send k fd msg).0 ≤ length msg
net_send-le k fd msg = ground arith

pub net_send-out :
    (k : Net) (fd : Fd) (msg : List Cell)
    → (net_send k fd msg).1.out ≡ k.out ++ take (sent_count (net_send k fd msg).0) msg
net_send-out k fd msg = elim (Bool-cases (k.room == 0)) [
  | inl stop ↦ rw stop (sym (append-nil k.out))
  | inr go ↦ rw go refl
]

pub net_send-got : (k : Net) (fd g : Fd) (msg : List Cell) → (net_send k fd msg).1.got ≡ k.got
net_send-got k fd g msg = elim (Bool-cases (k.room == 0)) [
  | inl stop ↦ rw stop refl
  | inr go ↦ rw go refl
]

pub net_recv-le : (k : Net) (fd : Fd) (n : ℕ) → length (received_bytes (net_recv k fd n).0) ≤ n
net_recv-le k fd n = rw received_bytes-answer (omega (arith, length-take n k.inbox))

abbrev pub net_laws : (asserts : Bool) → SysLaws (net asserts)
net_laws asserts = record {
  wire = λ k fd. k.out;
  taken = λ k fd. k.got;
  send-le = net_send-le;
  wire-send = net_send-out;
  wire-ctl = λ k op fd g ev. refl;
  recv-le = net_recv-le;
  taken-recv = λ k fd n. ap (◌++◌ k.got) (sym (received_bytes-answer (take n k.inbox)));
  wire-recv = λ k fd g n. refl;
  taken-send = net_send-got;
  taken-ctl = λ k op fd g ev. refl;
}

abbrev pub net_fds : (asserts : Bool) → FdLaws (net asserts)
net_fds asserts = record {
  held = λ k. k.held;
  held-ctl = λ k op fd ev. refl;
  held-close = λ k fd. refl;
  held-socket = λ k. refl;
  held-setsockopt = λ k fd opt. refl;
  held-bind = λ k fd addr port. refl;
  held-listen = λ k fd. refl;
  held-connect = λ k fd addr port. refl;
}

-- 8 of at most 16 bytes, with two of them used; the rate is 0.7.
abbrev pub small_buff : SocketBuff
small_buff = record {
  buf = some 1 ∷ some 2 ∷ replicate 14 none;
  len = 8;
  can_rate = λ n. n * 7 / 10;
  can_len = 5;
  index = 2;
  max_buf_len = 16;
}

pub small_buff-Inv : Inv small_buff
small_buff-Inv = record {
  allocated = refl;
  within = omega arith;
  positive = omega arith;
  small = omega arith;
  max_small = omega arith;
  threshold = omega arith;
  rate_small = λ n. omega arith;
}

abbrev pub socket_in : State → Socket
socket_in state = record {
  listener = record { fd = some 5; attached = true };
  stats = reset_stats 0;
  port = 9527;
  peer_port = 40000;
  addr = "127.0.0.1";
  peer_addr = "127.0.0.1";
  state = state;
  last_err = no_err;
  create_timestamp = 0;
  buff_len = none;
  rx_buff = small_buff;
  tx_buff = small_buff;
}

pub socket_in-IsOpen : (state : State) → IsOpen (socket_in state)
socket_in-IsOpen state = record { tx = small_buff-Inv; rx = small_buff-Inv; attached = refl }

-- a socket as its constructor leaves it
abbrev pub fresh_socket : Socket
fresh_socket = record (socket_in created) { listener = record { fd = none; attached = false } }

-- A kernel that takes `room` bytes, with the bytes 7, 8, 9 in its inbox.
abbrev pub env_with : (asserts : Bool) → ℕ → Env (net asserts)
env_with asserts room = record {
  kernel = record {
    out = [];
    got = [];
    inbox = some 7 ∷ some 8 ∷ some 9 ∷ [];
    room = room;
    held = 4;
    callers = 2;
  };
  fds = pos 1;
}
