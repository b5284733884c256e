-- ===== src/Application/TestMsg.antt =====
-- src/xma_application.cpp: the commands that `Application::Init` registers, and what "TestMsg" does to the
-- messages.
use cpp_readline.Common.{
  ==-refl, ℕ, Bool, true, false, List, [], ◌∷◌, ◌++◌, none, some, ℤ, pos, Result, ◌≡◌, refl, ap,
  ◌∙◌, Returns, returns, Returns-bind,
}
use cpp_readline.Shell.{Str, find, Shell}
use cpp_readline.Shell.Many.{latest, find-register_all}
use cpp_readline.Message.{Pipes, PipeLaws, process, Mail, get_thread}
use cpp_readline.Message.Post.{free-mark, Posted, waiting, deleted, new_msg, send_or_delete_lem}
use cpp_readline.Application.{
  application_commands, init_application, init_name, init_thread, test_msg, debug_msg,
  xma_msg_debug,
}

module _ (pipes : Pipes) (laws : PipeLaws pipes) (alloc : (ℕ → Bool) → ℕ) where
  -- How "TestMsg" with a word ends: a message that is new, carries the word and has the debug flag is the
  -- newest of the pipe `p`; or write(2) to the pipe fails, and the pipe and the messages in use are as before.
  pub data Tested (p : ℕ) (word : Str) (st : Mail pipes) : ℤ × Mail pipes → Type 0 where
    posted :
        (a : ℕ) (st' : Mail pipes)
        → st.live a ≡ false
        → st'.live a ≡ true
        → laws.queue st'.kernel p ≡ laws.queue st.kernel p ++ (a ∷ [])
        → (st'.messages a).name ≡ word
        → (st'.messages a).flag ≡ xma_msg_debug
        → Tested p word st (pos 0, st')
    unsent :
        (st' : Mail pipes)
        → (pipes.write st.kernel p (alloc st.live)).0 ≡ false
        → ((b : ℕ) → st'.live b ≡ st.live b)
        → laws.queue st'.kernel p ≡ laws.queue st.kernel p
        → Tested p word st (pos 0, st')

  Posted-Tested :
      (p : ℕ) (word : Str) (garbage : ℕ) (st st' : Mail pipes)
      → st.live (alloc st.live) ≡ false
      → Posted pipes laws
          (λ k. tt {0})
          (λ k q a. refl)
          p
          (alloc st.live)
          (new_msg pipes (alloc st.live) (debug_msg word garbage) st)
          st'
      → Tested p word st (pos 0, st')
  Posted-Tested p word garbage st st' unused (waiting queue view live name flag) =
      posted (alloc st.live) st' unused
        (ap (λ l. l (alloc st.live)) live ∙ rw (==-refl (alloc st.live)) refl) queue
        (name ∙ rw (==-refl (alloc st.live)) refl) (flag ∙ rw (==-refl (alloc st.live)) refl)
  Posted-Tested p word garbage st st' unused (deleted full queue view live) =
      unsent st' full (λ b. ap (λ l. l b) live ∙ free-mark st.live (alloc st.live) b unused) queue

  -- "TestMsg" with a word, where the thread "Init" is a process with the pipe `p` and `new` gives
  -- an address that is not in use, returns 0. Either a message that was not in use before is the
  -- newest of the pipe, carries the word and has the debug flag; or write(2) of
  -- its address to the pipe fails, the pipe is as before and no message is left in use that was not before.
  pub test_msg_lem :
      (garbage p : ℕ) (name cmd word : Str) (more : List Str) (st : Mail pipes)
      → get_thread st.threads init_name ≡ some (process name (some p))
      → st.live (alloc st.live) ≡ false
      → Returns (Tested p word st) (test_msg pipes alloc garbage (cmd ∷ word ∷ more) st)
  unfolding test_msg
  test_msg_lem garbage p name cmd word more st found unused =
      Returns-bind _
        (send_or_delete_lem pipes laws (λ k. tt {0}) (λ k q a. refl) init_thread name p _ init_name
          _ found)
        λ st' posted. returns (Posted-Tested p word garbage st st' unused posted)

  -- `Application::Init` on the first call returns. A name gives the command that `Init` registers under it,
  -- where there is one, and every other name gives what it gave before.
  pub init_application_lem :
      (garbage : ℕ) (sh : Shell (Result (Mail pipes))) (st : Mail pipes) (key : Str)
      → Returns
          (λ r.
            find (Result (Mail pipes)) r.1.commands key
            ≡ latest
                (Result (Mail pipes))
                (application_commands pipes alloc garbage)
                key
                (find (Result (Mail pipes)) sh.commands key))
          (init_application pipes alloc garbage none sh st)
  unfolding init_application
  init_application_lem garbage sh st key =
      returns
        (find-register_all (Result (Mail pipes)) (application_commands pipes alloc garbage) sh key)
