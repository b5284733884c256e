-- ===== src/Message.antt =====
-- src/xma_message.cpp, src/xma_thread.cpp and src/xma_process.cpp: how a message goes to another thread.
-- The registry of threads finds the receiver, whose service writes the message's address to a pipe; its
-- listener reads the address, runs the message and deletes it. Strings are those of the shell.
-- `assert` is compiled in, as it is without NDEBUG.
pub mod Send
pub mod Deliver
pub mod Post
pub mod Wait
use cpp_readline.Common.{
  ◌≡◌, ℕ, ◌+◌, ◌%◌, ◌^◌, suc, Bool, true, false, if◌then◌else◌, ◌&&◌, not, ◌==◌, List, [], ◌∷◌,
  ◌++◌, Option, none, some, Result, ok, fault, assertion, exception, out_of_bounds, ◌>>=◌, ◌>>◌,
  guard, add_u32,
}
use cpp_readline.Shell.{Str, str_eq}

-- An answer of read(2) on the pipe: -1, a whole address, or the count of bytes of anything else.
pub data PipeReply : Type 0 where
  failed : PipeReply
  address : ℕ → PipeReply
  bytes : ℕ → PipeReply

-- The calls on pipes: `write` of one address is true where it does not return -1.
pub record Pipes : Type 1 where
  pub Kernel : Type 0
  pub write : Kernel → ℕ → ℕ → Bool × Kernel
  pub read : Kernel → ℕ → PipeReply × Kernel

-- `queue` is the addresses in a pipe: write(2) appends one or does nothing, read(2) takes the oldest.
pub record PipeLaws (pipes : Pipes) : Type 0 where
  pub queue : pipes.Kernel → ℕ → List ℕ
  pub written :
      (k : pipes.Kernel) (p a : ℕ)
      → queue (pipes.write k p a).1 p
        ≡ (if (pipes.write k p a).0 then queue k p ++ (a ∷ []) else queue k p)
  pub oldest :
      (k : pipes.Kernel) (p a : ℕ) (rest : List ℕ)
      → queue k p ≡ a ∷ rest
      → ((pipes.read k p).0 ≡ address a) × (queue (pipes.read k p).1 p ≡ rest)

pub record Msg : Type 0 where
  pub flag : ℕ
  pub val : ℕ
  pub name : Str
  pub sender : Str
  pub receiver : Str
  pub sval : Str

-- A `Process` has a pipe from its initialisation on, a basic thread never.
pub data Thread : Type 0 where
  process : (name : Str) (pipe : Option ℕ) → Thread
  basic : (name : Str) → Thread

abbrev pub thread_name : Thread → Str
thread_name (process name pipe) = name
thread_name (basic name) = name

-- `live` tells which addresses hold a message that is not deleted.
pub record Mail (pipes : Pipes) : Type 0 where
  pub threads : List Thread
  pub thread_seq : ℕ
  pub messages : ℕ → Msg
  pub live : ℕ → Bool
  pub kernel : pipes.Kernel

-- `ThreadMgr::GetThread`
unfoldable pub get_thread : List Thread → Str → Option Thread
get_thread [] name = none
get_thread (t ∷ ts) name =
    let rest = get_thread ts name in if str_eq (thread_name t) name then some t else rest

abbrev pub store : (ℕ → Msg) → ℕ → Msg → ℕ → Msg
store messages a m b = if b == a then m else messages b

abbrev pub free : (ℕ → Bool) → ℕ → ℕ → Bool
free live a b = if b == a then false else live b

module _ (pipes : Pipes) where
  -- `ThreadMgr::Register` and `ThreadMgr::GetThreadId`
  unfoldable pub register : Thread → Mail pipes → Mail pipes
  register t st = record st { threads = st.threads ++ (t ∷ []) }

  unfoldable pub get_thread_id : Mail pipes → ℕ × Mail pipes
  get_thread_id st = (add_u32 st.thread_seq 1, record st { thread_seq = add_u32 st.thread_seq 1 })

  -- `ProcessService::SendMsg`; no address is a null pointer
  unfoldable pub service_send : ℕ → Option ℕ → Mail pipes → Bool × Mail pipes
  service_send pipe none st = (true, st)
  service_send pipe (some a) st =
      ((pipes.write st.kernel pipe a).0, record st { kernel = (pipes.write st.kernel pipe a).1 })

  -- `Process::SendMsg`, and that of a basic thread, which throws
  unfoldable pub send_msg : Thread → Option ℕ → Mail pipes → Result (Bool × Mail pipes)
  unfolding service_send
  send_msg (process name none) msg st = fault assertion
  send_msg (process name (some pipe)) msg st = ok (service_send pipe msg st)
  send_msg (basic name) msg st = fault exception

  addressed : Str → Str → ℕ → Mail pipes → Mail pipes
  addressed sender receiver a st = record st {
    messages =
        store st.messages a (record (st.messages a) { sender = sender; receiver = receiver });
  }

  send_to : Option Thread → Str → Str → ℕ → Mail pipes → Result (Bool × Mail pipes)
  unfolding send_msg addressed
  send_to none sender receiver a st = ok (false, st)
  send_to (some t) sender receiver a st = send_msg t (some a) (addressed sender receiver a st)

  -- `Msg::Send(receiver, msg)` on the thread `current_`, a message that is live
  unfoldable pub send : Option Thread → Str → ℕ → Mail pipes → Result (Bool × Mail pipes)
  unfolding send_to get_thread
  send none receiver a st = fault assertion
  send (some current) receiver a st =
      send_to (get_thread st.threads receiver) (thread_name current) receiver a st

  module _ (handler : ℕ → Mail pipes → Result (Mail pipes)) where
    -- `ProcessMsgListener::Dispatch`: `Exec`, which calls the virtual `Handler`, and `delete`
    unfoldable pub dispatch : ℕ → Mail pipes → Result (Mail pipes)
    dispatch a st = guard (st.live a) out_of_bounds >> handler a st >>= λ st'.
        ok (record st' { live = free st'.live a })

    unfoldable pub after_pipe : PipeReply → Mail pipes → Result (Bool × Mail pipes)
    unfolding dispatch
    after_pipe failed st = ok (false, st)
    after_pipe (address a) st = dispatch a st >>= λ st'. ok (true, st')
    after_pipe (bytes n) st = ok (n % 8 == 0, st)

    -- `ProcessMsgListener::DoHandle`, for an event that carries this listener: `events | EPOLLIN` holds
    -- of every event
    unfoldable pub do_handle : ℕ → Mail pipes → Result (Bool × Mail pipes)
    unfolding after_pipe
    do_handle pipe st =
        after_pipe (pipes.read st.kernel pipe).0
          (record st { kernel = (pipes.read st.kernel pipe).1 })
