-- ===== src/Command.antt =====
-- What the shell commands of the two example programs share: example/server_process.cpp and
-- client/client_process.cpp differ in names. A command makes a message for the program's process; the
-- message's `Handler` runs a request on the service of that process. The service's state and the
-- messages' own fields stand beside the kernel's state of the pipes.
pub mod Route
use Prim.Native.String.{String}
use cpp_readline.Common.{
  bytes, ℕ, zero, suc, ◌+◌, ◌-◌, ◌*◌, ◌%◌, ◌^◌, Bool, true, false, if◌then◌else◌, ◌==◌, ◌&&◌, leb,
  ltb, List, [], ◌∷◌, Option, none, some, ℤ, pos, negsuc, Result, ok, fault, exception, ◌>>=◌,
  int_limit,
}
use cpp_readline.Shell.{Str}
use cpp_readline.Message.{Pipes, PipeLaws, Msg, Thread, Mail, send}
use cpp_readline.Message.Post.{new_msg, send_or_delete}
use cpp_readline.Application.{done}

-- `StartServer` and `StartConnect` with their fields, and `StopServer` and `StopConnect`
pub data Request : Type 0 where
  start : String → ℕ → Request
  stop : Request

-- The state of a program beside that of its pipes: the fields of a message at an address, and the
-- service.
pub record Program (V : Type 0) : Type 0 where
  pub requests : ℕ → Request
  pub service : V

abbrev pub with_program : Pipes → Type 0 → Pipes
with_program pipes V = record {
  Kernel = pipes.Kernel × Program V;
  write = λ k p a. ((pipes.write k.0 p a).0, ((pipes.write k.0 p a).1, k.1));
  read = λ k p. ((pipes.read k.0 p).0, ((pipes.read k.0 p).1, k.1));
}

-- the digits at the front of a text, with the number read before; none where there is no digit at all
read_digits : Option ℕ → Str → Option ℕ
read_digits before [] = before
read_digits before (c ∷ cs) =
    let more = read_digits (some (digit before c)) cs in
    if leb 48 c && leb c 57 then more else before
  where
    digit : Option ℕ → ℕ → ℕ
    digit none c = c - 48
    digit (some n) c = n * 10 + (c - 48)

-- the `int` of a sign and a number, where it is in range
positive : Option ℕ → Option ℤ
positive none = none
positive (some n) = if ltb n int_limit then some (pos n) else none

negative : Option ℕ → Option ℤ
negative none = none
negative (some zero) = some (pos zero)
negative (some (suc n)) = if ltb n int_limit then some (negsuc n) else none

-- `std::stoi` of a word, which has no spaces; it throws where there is no number
unfoldable pub stoi : Str → Option ℤ
unfolding read_digits positive negative
stoi [] = none
stoi (c ∷ cs) =
    if c == 45
    then negative (read_digits none cs)
    else if c == 43
    then positive (read_digits none cs)
    else positive (read_digits none (c ∷ cs))

-- an `int` in a `uint16_t`
unfoldable pub as_u16 : ℤ → ℕ
as_u16 (pos n) = n % 2 ^ 16
as_u16 (negsuc n) = 2 ^ 16 - 1 - n % 2 ^ 16

-- `string_of` is the string with these bytes, `alloc` the address that `new` gives, and `serve` what a
-- request does to the service.
module _ (pipes : Pipes) (V : Type 0) (string_of : Str → String) (alloc : (ℕ → Bool) → ℕ) where
  abbrev pub State : Type 0
  State = Mail (with_program pipes V)

  -- the fields of the message at `a`
  unfoldable pub set_request : ℕ → Request → State → State
  set_request a q st = record st {
    kernel = (
      st.kernel.0,
      record st.kernel.1 { requests = λ b. if b == a then q else st.kernel.1.requests b },
    );
  }

  -- `new StartServer()` and the like: `garbage` is what the memory of `flag_` and `val_` held
  unfoldable pub new_request : ℕ → Str → Request → State → State
  unfolding set_request
  new_request garbage name q st = set_request (alloc st.live) q (
      new_msg (with_program pipes V) (alloc st.live)
        (record {
          flag = garbage;
          val = garbage;
          name = name;
          sender = [];
          receiver = [];
          sval = [];
        })
        st)

  module _ (garbage : ℕ) (current : Option Thread) (name receiver : Str) where
    -- the rest of the function of "StartServer" and "Connect", from `std::stoi` on
    unfoldable pub post_start : Str → Option ℤ → State → Result (ℤ × State)
    post_start addr none st = fault exception
    post_start addr (some port) st = done (
        send_or_delete (with_program pipes V) current receiver (alloc st.live)
          (new_request garbage name (start (string_of addr) (as_u16 port)) st))

    -- the function of "StartServer" and "Connect": without two arguments it does nothing
    unfoldable pub start_command : List Str → State → Result (ℤ × State)
    unfolding post_start
    start_command (cmd ∷ addr ∷ port ∷ []) st = post_start addr (stoi port) st
    start_command args st = ok (pos 0, st)

    -- the function of "StopServer" and "Disconnect": a message that is not sent stays in use
    unfoldable pub stop_command : List Str → State → Result (ℤ × State)
    stop_command args st =
        send (with_program pipes V) current receiver (alloc st.live)
          (new_request garbage name stop st)
        >>= λ r. ok (pos 0, r.1)

  -- `Handler` of the message at an address, on the thread that has the service
  unfoldable pub handler : (Request → V → Result V) → ℕ → State → Result State
  handler serve a st = serve (st.kernel.1.requests a) st.kernel.1.service >>= λ v.
      ok (record st { kernel = (st.kernel.0, record st.kernel.1 { service = v }) })
