-- ===== src/Message/Deliver.antt =====
-- src/xma_process.cpp: what the listener of a process does with the oldest message of its pipe.
use cpp_readline.Common.{ℕ, true, List, ◌∷◌, Result, ok, ◌≡◌, ◌>>=◌, bind_assoc}
use cpp_readline.Message.{Pipes, PipeLaws, Mail, free, dispatch, after_pipe, do_handle}

module _ (pipes : Pipes) (laws : PipeLaws pipes)
    (handler : ℕ → Mail pipes → Result (Mail pipes)) where
  -- Run `Handler` of the message `a` with `rest` left in the pipe, then delete it.
  pub record Delivers (p a : ℕ) (rest : List ℕ) (st : Mail pipes) : Type 0 where
    pub kernel : pipes.Kernel
    pub left : laws.queue kernel p ≡ rest
    pub runs : do_handle pipes handler p st ≡ (
        handler a (record st { kernel = kernel }) >>= λ st'.
        ok (true, record st' { live = free st'.live a }))

  -- An event on the pipe of a process takes the oldest message that waits, and no other, runs its
  -- `Handler` and then deletes it. What the handler throws goes through.
  pub do_handle_oldest :
      (p a : ℕ) (rest : List ℕ) (st : Mail pipes)
      → laws.queue st.kernel p ≡ a ∷ rest
      → st.live a ≡ true
      → Delivers p a rest st
  unfolding do_handle after_pipe dispatch
  do_handle_oldest p a rest st waits alive = record {
    kernel = (pipes.read st.kernel p).1;
    left = (laws.oldest st.kernel p a rest waits).1;
    runs =
        rw ((laws.oldest st.kernel p a rest waits).0, alive)
          (bind_assoc (handler a (record st { kernel = (pipes.read st.kernel p).1 })) _ _);
  }
