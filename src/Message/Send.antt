-- ===== src/Message/Send.antt =====
-- src/xma_message.cpp: what `Msg::Send` does to the receiver's pipe.
use cpp_readline.Common.{
  ==-refl, ℕ, Bool, true, false, [], ◌∷◌, ◌++◌, some, ◌≡◌, refl, Returns, returns, ◌∙◌, Bool-cases,
  inl, inr,
}
use cpp_readline.Shell.{Str}
use cpp_readline.Message.{
  Pipes, PipeLaws, Thread, process, thread_name, Mail, get_thread, send, send_to, send_msg,
  service_send, addressed,
}

module _ (pipes : Pipes) (laws : PipeLaws pipes) where
  -- How a send to a process with the pipe `p` ends: the address is the newest of the pipe, or write(2)
  -- fails, false is returned and the pipe is as before.
  pub data Sent (p a : ℕ) (sender receiver : Str) (st : Mail pipes)
      : Bool × Mail pipes → Type 0 where
    queued :
        (st' : Mail pipes)
        → laws.queue st'.kernel p ≡ laws.queue st.kernel p ++ (a ∷ [])
        → (st'.messages a).sender ≡ sender
        → (st'.messages a).receiver ≡ receiver
        → st'.live ≡ st.live
        → Sent p a sender receiver st (true, st')
    dropped :
        (st' : Mail pipes)
        → (pipes.write st.kernel p a).0 ≡ false
        → laws.queue st'.kernel p ≡ laws.queue st.kernel p
        → Sent p a sender receiver st (false, st')

  -- `Msg::Send` to a process that is registered and initialised returns. It puts the message behind
  -- all that wait in the pipe of that process, with the names of both threads in it; or
  -- write(2) of its address to that pipe fails, and it returns false and adds nothing.
  pub send_lem :
      (current : Thread) (name : Str) (p a : ℕ) (receiver : Str) (st : Mail pipes)
      → get_thread st.threads receiver ≡ some (process name (some p))
      → Returns
          (Sent p a (thread_name current) receiver st)
          (send pipes (some current) receiver a st)
  unfolding send send_to send_msg service_send addressed
  send_lem current name p a receiver st found =
      rw found (elim (Bool-cases (pipes.write st.kernel p a).0) [
        | inl went ↦ rw went (
            returns (
              queued _ (laws.written st.kernel p a ∙ rw went refl) (rw (==-refl a) refl)
                (rw (==-refl a) refl) refl))
        | inr full ↦ rw full (returns (dropped _ full (laws.written st.kernel p a ∙ rw full refl)))
      ])
