-- ===== src/Command/Route.antt =====
-- example/server_process.cpp and client/client_process.cpp: the way of a request from the shell to the
-- service.
use Prim.Native.String.{String}
use cpp_readline.Common.{
  ==-refl, ℕ, Bool, true, false, List, [], ◌∷◌, ◌++◌, some, ℤ, pos, Result, ok, ◌>>=◌, bind_oks,
  ◌≡◌, refl, ap, ◌∙◌, Returns, returns, Returns-bind,
}
use cpp_readline.Shell.{Str}
use cpp_readline.Message.{
  Pipes, PipeLaws, Thread, process, get_thread, free, do_handle, dispatch, after_pipe,
}
use cpp_readline.Message.Post.{Posted, waiting, deleted, free-mark, send_or_delete_lem}
use cpp_readline.Command.{
  Request, start, with_program, stoi, as_u16, State, new_request, set_request, start_command,
  post_start, handler,
}

module _ (pipes : Pipes) (laws : PipeLaws pipes) (V : Type 0) where
  -- A pipe of the program is a pipe of the kernel.
  with_program-laws : PipeLaws (with_program pipes V)
  with_program-laws = record {
    queue = λ k p. laws.queue k.0 p;
    written = λ k p a. laws.written k.0 p a;
    oldest = λ k p a rest e. laws.oldest k.0 p a rest e;
  }

  module _ (string_of : Str → String) (alloc : (ℕ → Bool) → ℕ)
      (serve : Request → V → Result V) where
    abbrev St : Type 0
    St = State pipes V string_of alloc

    abbrev pub service_of : St → V
    service_of st = st.kernel.1.service

    abbrev pub waiting_of : St → ℕ → List ℕ
    waiting_of st p = laws.queue st.kernel.0 p

    -- How "StartServer" or "Connect" with an address and a port ends. `arrives`: at the next event of
    -- the pipe, the request is served with that address and that port on the service as it is, and
    -- what it leaves is the service. `unsent`: write(2) to the pipe fails, and pipe, service and messages in
    -- use are as before.
    pub data Routed (p : ℕ) (q : Request) (st : St) : ℤ × St → Type 0 where
      arrives :
          (st' : St) (next : V → St)
          → ((v : V) → service_of (next v) ≡ v)
          → ((v : V) → waiting_of (next v) p ≡ [])
          → do_handle (with_program pipes V) (handler pipes V string_of alloc serve) p st'
            ≡ (serve q (service_of st) >>= λ v. ok (true, next v))
          → Routed p q st (pos 0, st')
      unsent :
          (st' : St)
          → (pipes.write st.kernel.0 p (alloc st.live)).0 ≡ false
          → service_of st' ≡ service_of st
          → waiting_of st' p ≡ []
          → ((b : ℕ) → st'.live b ≡ st.live b)
          → Routed p q st (pos 0, st')

    after_read : ℕ → St → St
    after_read p st = record st { kernel = ((pipes.read st.kernel.0 p).1, st.kernel.1) }

    served : ℕ → St → V → St
    served a st v = record st {
      kernel = (st.kernel.0, record st.kernel.1 { service = v });
      live = free st.live a;
    }

    do_handle_request :
        (p a : ℕ) (q : Request) (v : V) (st : St)
        → waiting_of st p ≡ a ∷ []
        → st.live a ≡ true
        → st.kernel.1.requests a ≡ q
        → service_of st ≡ v
        → do_handle (with_program pipes V) (handler pipes V string_of alloc serve) p st
          ≡ (serve q v >>= λ w. ok (true, served a (after_read p st) w))
    unfolding do_handle after_pipe dispatch handler served after_read
    do_handle_request p a q v st waits alive asks is =
        rw ((laws.oldest st.kernel.0 p a [] waits).0, alive, asks, is) (bind_oks (serve q v) _ _ _)

    module _ (garbage p : ℕ) (current : Thread) (nm name receiver : Str) where
      Posted-Routed :
          (q : Request) (st st' : St)
          → waiting_of st p ≡ []
          → st.live (alloc st.live) ≡ false
          → Posted
              (with_program pipes V)
              with_program-laws
              (λ k. k.1)
              (λ k q a. refl)
              p
              (alloc st.live)
              (new_request pipes V string_of alloc garbage name q st)
              st'
          → Routed p q st (pos 0, st')
      unfolding new_request set_request with_program-laws served after_read
      Posted-Routed q st st' empty unused (waiting queue view live _ _) =
          arrives st' (served (alloc st.live) (after_read p st')) (λ v. refl)
            (λ v. (laws.oldest st'.kernel.0 p (alloc st.live) [] alone).1)
            (do_handle_request p (alloc st.live) q st.kernel.1.service st' alone
              (ap (λ l. l (alloc st.live)) live ∙ rw (==-refl (alloc st.live)) refl)
              (ap (λ k. k.requests (alloc st.live)) view ∙ rw (==-refl (alloc st.live)) refl)
              (ap (λ k. k.service) view))
        where
          alone : laws.queue st'.kernel.0 p ≡ alloc st.live ∷ []
          alone = queue ∙ ap (λ l. l ++ (alloc st.live ∷ [])) empty
      Posted-Routed q st st' empty unused (deleted full queue view live) =
          unsent st' full (ap (λ k. k.service) view) (queue ∙ empty)
            (λ b. ap (λ l. l b) live ∙ free-mark st.live (alloc st.live) b unused)

      -- "StartServer" or "Connect" with an address and a port that `std::stoi` reads returns 0,
      -- where the receiver is a process with the empty pipe `p` and `new` gives an address that
      -- is not in use. Either the next event of the pipe serves the request with that address and
      -- that port, modulo 2^16, on the service as it is; or write(2) of the message's
      -- address to the pipe fails, and the service, the pipe and the messages in use are as before.
      pub start_command_lem :
          (cmd addr port : Str) (n : ℤ) (st : St)
          → get_thread st.threads receiver ≡ some (process nm (some p))
          → waiting_of st p ≡ []
          → st.live (alloc st.live) ≡ false
          → stoi port ≡ some n
          → Returns (Routed p (start (string_of addr) (as_u16 n)) st) (
              start_command pipes V string_of alloc garbage
                (some current)
                name
                receiver
                (cmd ∷ addr ∷ port ∷ [])
                st)
      unfolding start_command post_start new_request set_request
      start_command_lem cmd addr port n st found empty unused reads = rw reads (
          Returns-bind _
            (send_or_delete_lem (with_program pipes V) with_program-laws (λ k. k.1) (λ k q a. refl)
              current nm p (alloc st.live) receiver
              (new_request pipes V string_of alloc garbage name (start (string_of addr) (as_u16 n))
                st)
              found)
            λ st' posted. returns (Posted-Routed _ st st' empty unused posted))
