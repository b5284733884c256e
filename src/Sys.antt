-- ===== src/Sys.antt =====
-- What the sockets use of Linux, as an interface: the calls are parameters of the model. `Sys` has
-- the calls, `SysLaws` what send(2), recv(2) and epoll_ctl(2) are documented to do with the bytes
-- of a stream. A file descriptor of -1 is `none`.
use Prim.Native.String.{String}
use cpp_readline.Common.{
  ℤ, ◌-◌, none, some, suc, ℕ, ◌≤◌, ◌≡◌, Bool, true, false, Option, List, [], ◌++◌, length, take,
}
use cpp_readline.Memory.{Cell}

-- The bits of an epoll event mask that the code names, and whether any other bit is set.
pub record Events : Type 0 where
  pub epollin : Bool
  pub epollout : Bool
  pub epollerr : Bool
  pub epollhup : Bool
  pub others : Bool

-- EPOLLIN | EPOLLERR | EPOLLHUP
abbrev pub in_err_hup : Events
in_err_hup = record {
  epollin = true;
  epollout = false;
  epollerr = true;
  epollhup = true;
  others = false;
}

-- EPOLLIN | EPOLLOUT | EPOLLERR | EPOLLHUP
abbrev pub in_out_err_hup : Events
in_out_err_hup = record in_err_hup { epollout = true }

-- EPOLLIN
abbrev pub only_in : Events
only_in = record {
  epollin = true;
  epollout = false;
  epollerr = false;
  epollhup = false;
  others = false;
}

-- `retry` is -1 with `errno` EINTR or EAGAIN, `failed` is -1 with any other.
pub data SendReply : Type 0 where
  sent : ℕ → SendReply
  retry : SendReply
  failed : SendReply

pub data RecvReply : Type 0 where
  received : List Cell → RecvReply
  retry : RecvReply
  failed : RecvReply

pub data CtlOp : Type 0 where
  ctl_add ctl_mod ctl_del : CtlOp

-- connect(2): 0, -1 with EINPROGRESS, or -1 with another `errno`
pub data ConnectReply : Type 0 where
  done in_progress failed : ConnectReply

-- getsockopt(2) of SO_ERROR: -1, or 0 with EINPROGRESS, no error, or another error
pub data SoError : Type 0 where
  call_failed pending clear broken : SoError

pub data SockOpt : Type 0 where
  reuseaddr sndbuf nodelay quickack : SockOpt

abbrev pub Fd : Type 0
Fd = Option ℕ

pub record Sys : Type 1 where
  pub Kernel : Type 0
  -- whether `assert` is compiled in, as it is without NDEBUG
  pub asserts : Bool
  -- what an `epoll_event` on the stack holds before anything is stored in it
  pub garbage : Events
  pub send : Kernel → Fd → List Cell → SendReply × Kernel
  -- at most so many bytes
  pub recv : Kernel → Fd → ℕ → RecvReply × Kernel
  -- true where the call returns 0; no events is a null pointer
  pub epoll_ctl : Kernel → CtlOp → Fd → Option Events → Bool × Kernel
  pub close : Kernel → Fd → Kernel
  pub socket : Kernel → Option ℕ × Kernel
  -- the `int` that setsockopt(2) returns
  pub setsockopt : Kernel → ℕ → SockOpt → ℤ × Kernel
  -- These two are true where the call returns 0. The address of `bind` and `connect` is the text that
  -- the program passes through inet_addr(3).
  pub bind : Kernel → ℕ → String → ℕ → Bool × Kernel
  pub listen : Kernel → Fd → Bool × Kernel
  -- accept4(2): the new descriptor, or -1
  pub accept : Kernel → Fd → Option ℕ × Kernel
  pub connect : Kernel → ℕ → String → ℕ → ConnectReply × Kernel
  pub so_error : Kernel → Fd → SoError × Kernel
  -- the address and port of the own and of the other end, where the call returns 0
  pub getsockname : Kernel → Fd → Option (String × ℕ)
  pub getpeername : Kernel → Fd → Option (String × ℕ)

abbrev pub sent_count : SendReply → ℕ
sent_count (sent n) = n
sent_count SendReply.retry = 0
sent_count SendReply.failed = 0

abbrev pub received_bytes : RecvReply → List Cell
received_bytes (received bytes) = bytes
received_bytes RecvReply.retry = []
received_bytes RecvReply.failed = []

-- `wire` is every byte that the kernel took for sending on a descriptor, and `taken` every byte that
-- it handed to the program.
pub record SysLaws (sys : Sys) : Type 0 where
  pub wire : sys.Kernel → Fd → List Cell
  pub taken : sys.Kernel → Fd → List Cell
  pub send-le :
      (k : sys.Kernel) (fd : Fd) (msg : List Cell) → sent_count (sys.send k fd msg).0 ≤ length msg
  pub wire-send :
      (k : sys.Kernel) (fd : Fd) (msg : List Cell)
      → wire (sys.send k fd msg).1 fd ≡ wire k fd ++ take (sent_count (sys.send k fd msg).0) msg
  pub wire-ctl :
      (k : sys.Kernel) (op : CtlOp) (fd g : Fd) (ev : Option Events)
      → wire (sys.epoll_ctl k op fd ev).1 g ≡ wire k g
  pub recv-le : (k : sys.Kernel) (fd : Fd) (n : ℕ) → length (received_bytes (sys.recv k fd n).0) ≤ n
  pub taken-recv :
      (k : sys.Kernel) (fd : Fd) (n : ℕ)
      → taken (sys.recv k fd n).1 fd ≡ taken k fd ++ received_bytes (sys.recv k fd n).0
  pub wire-recv : (k : sys.Kernel) (fd g : Fd) (n : ℕ) → wire (sys.recv k fd n).1 g ≡ wire k g
  pub taken-send :
      (k : sys.Kernel) (fd g : Fd) (msg : List Cell) → taken (sys.send k fd msg).1 g ≡ taken k g
  pub taken-ctl :
      (k : sys.Kernel) (op : CtlOp) (fd g : Fd) (ev : Option Events)
      → taken (sys.epoll_ctl k op fd ev).1 g ≡ taken k g

abbrev pub after_socket : Option ℕ → ℕ → ℕ
after_socket none n = n
after_socket (some fd) n = suc n

-- How many descriptors the process holds, and what each call is documented to do with them.
pub record FdLaws (sys : Sys) : Type 0 where
  pub held : sys.Kernel → ℕ
  pub held-ctl :
      (k : sys.Kernel) (op : CtlOp) (fd : Fd) (ev : Option Events)
      → held (sys.epoll_ctl k op fd ev).1 ≡ held k
  pub held-close : (k : sys.Kernel) (fd : ℕ) → held (sys.close k (some fd)) ≡ held k - 1
  pub held-socket :
      (k : sys.Kernel) → held (sys.socket k).1 ≡ after_socket (sys.socket k).0 (held k)
  pub held-setsockopt :
      (k : sys.Kernel) (fd : ℕ) (opt : SockOpt) → held (sys.setsockopt k fd opt).1 ≡ held k
  pub held-bind :
      (k : sys.Kernel) (fd : ℕ) (addr : String) (port : ℕ)
      → held (sys.bind k fd addr port).1 ≡ held k
  pub held-listen : (k : sys.Kernel) (fd : Fd) → held (sys.listen k fd).1 ≡ held k
  pub held-connect :
      (k : sys.Kernel) (fd : ℕ) (addr : String) (port : ℕ)
      → held (sys.connect k fd addr port).1 ≡ held k
