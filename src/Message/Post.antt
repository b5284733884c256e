-- ===== src/Message/Post.antt =====
-- What a command of the shell does with a message: `new`, `Msg::Send`, and `delete` where the send
-- returned false. `alloc` is the address that `new` gives, from the addresses that are in use.
use cpp_readline.Common.{
  sym, ap, ==→≡, ==-refl, ℕ, Bool, true, false, if◌then◌else◌, ◌==◌, [], ◌∷◌, ◌++◌, Option, some,
  Result, ok, ◌>>=◌, ◌≡◌, refl, ◌∙◌, Returns, returns, Bool-cases, inl, inr,
}
use cpp_readline.Shell.{Str}
use cpp_readline.Message.{
  Pipes, PipeLaws, Msg, Thread, process, Mail, get_thread, send, send_to, send_msg, service_send,
  addressed, store, free,
}

abbrev pub mark : (ℕ → Bool) → ℕ → ℕ → Bool
mark live a b = if b == a then true else live b

-- A message that is deleted after it was made leaves the addresses in use as they were.
pub free-mark : (live : ℕ → Bool) (a b : ℕ) → live a ≡ false → free (mark live a) a b ≡ live b
free-mark live a b unused = elim (Bool-cases (b == a)) [
  | inl same ↦ rw same (sym unused ∙ sym (ap live (==→≡ b a same)))
  | inr other ↦ rw other refl
]

module _ (pipes : Pipes) where
  -- `new Msg(...)` at the address `a`
  abbrev pub new_msg : ℕ → Msg → Mail pipes → Mail pipes
  new_msg a msg st = record st { messages = store st.messages a msg; live = mark st.live a }

  pub delete_unsent : ℕ → Bool × Mail pipes → Result (Mail pipes)
  delete_unsent a (true, st) = ok st
  delete_unsent a (false, st) = ok (record st { live = free st.live a })

  -- `if (!Msg::Send(receiver, m)) delete m;`
  unfoldable pub send_or_delete : Option Thread → Str → ℕ → Mail pipes → Result (Mail pipes)
  unfolding delete_unsent
  send_or_delete current receiver a st = send pipes current receiver a st >>= delete_unsent a

  module _ (laws : PipeLaws pipes) {X : Type 0} (view : pipes.Kernel → X)
      (view-write : (k : pipes.Kernel) (p a : ℕ) → view (pipes.write k p a).1 ≡ view k) where
    -- The message is the newest of the pipe `p`; or write(2) fails, the pipe is as before and the
    -- message is deleted.
    -- Neither changes what `view` shows of the kernel's state.
    pub data Posted (p a : ℕ) (st : Mail pipes) : Mail pipes → Type 0 where
      waiting :
          {st' : Mail pipes}
          → laws.queue st'.kernel p ≡ laws.queue st.kernel p ++ (a ∷ [])
          → view st'.kernel ≡ view st.kernel
          → st'.live ≡ st.live
          → (st'.messages a).name ≡ (st.messages a).name
          → (st'.messages a).flag ≡ (st.messages a).flag
          → Posted p a st st'
      deleted :
          {st' : Mail pipes}
          → (pipes.write st.kernel p a).0 ≡ false
          → laws.queue st'.kernel p ≡ laws.queue st.kernel p
          → view st'.kernel ≡ view st.kernel
          → st'.live ≡ free st.live a
          → Posted p a st st'

    pub send_or_delete_lem :
        (current : Thread) (name : Str) (p a : ℕ) (receiver : Str) (st : Mail pipes)
        → get_thread st.threads receiver ≡ some (process name (some p))
        → Returns (Posted p a st) (send_or_delete (some current) receiver a st)
    unfolding send_or_delete delete_unsent send send_to send_msg service_send addressed
    send_or_delete_lem current name p a receiver st found =
        rw found (elim (Bool-cases (pipes.write st.kernel p a).0) [
          | inl went ↦ rw went (
              returns (
                waiting (laws.written st.kernel p a ∙ rw went refl) (view-write st.kernel p a) refl
                  (rw (==-refl a) refl) (rw (==-refl a) refl)))
          | inr full ↦ rw full (
              returns (
                deleted full (laws.written st.kernel p a ∙ rw full refl) (view-write st.kernel p a)
                  refl))
        ])
