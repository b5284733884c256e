-- ===== src/Message/Wait.antt =====
-- src/xma_process.cpp: a message that waits in the pipe of a process is delivered.
use cpp_readline.Common.{
  ℕ, zero, suc, true, false, ◌==◌, List, [], ◌∷◌, ◌++◌, append_assoc, length, Result, ok, ◌>>=◌,
  ◌≡◌, ap, ◌∙◌, Returns, returns, Returns-bind,
}
use cpp_readline.Message.{Pipes, PipeLaws, Mail, do_handle}
use cpp_readline.Message.Deliver.{Delivers, do_handle_oldest}

-- no message of the list is `b`
pub data Differ (b : ℕ) : List ℕ → Type 0 where
  differ-nil : Differ b []
  differ-cons : {c : ℕ} {cs : List ℕ} → (c == b) ≡ false → Differ b cs → Differ b (c ∷ cs)

module _ (pipes : Pipes) (laws : PipeLaws pipes) (handler : ℕ → Mail pipes → Result (Mail pipes))
    (p : ℕ) where
  -- What a handler leaves: more messages may wait, behind those of before, and none is deleted.
  pub record Leaves (st st' : Mail pipes) : Type 0 where
    pub new : List ℕ
    pub queue : laws.queue st'.kernel p ≡ laws.queue st.kernel p ++ new
    pub live : (c : ℕ) → st.live c ≡ true → st'.live c ≡ true

  -- so many events of the pipe
  pub events : ℕ → Mail pipes → Result (Mail pipes)
  events zero st = ok st
  events (suc n) st = let rest = events n in do_handle pipes handler p st >>= λ r. rest r.1

  -- After one event: `waits` of the messages and what is new, and no message deleted but `b`.
  record After (b : ℕ) (waits : List ℕ) (st st' : Mail pipes) : Type 0 where
    new : List ℕ
    queue : laws.queue st'.kernel p ≡ waits ++ new
    live : (c : ℕ) → (c == b) ≡ false → st.live c ≡ true → st'.live c ≡ true

  -- The messages are in use and no two are the same.
  pub data Ready (st : Mail pipes) : List ℕ → Type 0 where
    ready-nil : Ready st []
    ready-cons :
        {b : ℕ} {bs : List ℕ} → st.live b ≡ true → Differ b bs → Ready st bs → Ready st (b ∷ bs)

  -- The message `a` is the next of the pipe, and in use.
  pub record IsNext (a : ℕ) (st : Mail pipes) : Type 0 where
    pub behind : List ℕ
    pub queue : laws.queue st.kernel p ≡ a ∷ behind
    pub live : st.live a ≡ true

  Ready-After :
      {b : ℕ} {waits bs : List ℕ} {st st' : Mail pipes}
      → After b waits st st'
      → Differ b bs
      → Ready st bs
      → Ready st' bs
  Ready-After after differ-nil ready-nil = ready-nil
  Ready-After after (differ-cons d ds) (ready-cons l other ls) =
      ready-cons (after.live _ d l) other (Ready-After after ds ls)

  module _
      (kind : (b : ℕ) (st : Mail pipes)
        → st.live b ≡ true
        → Returns (Leaves st) (handler b st)) where
    event-After :
        (b : ℕ) (waits : List ℕ) (st : Mail pipes)
        → laws.queue st.kernel p ≡ b ∷ waits
        → st.live b ≡ true
        → Returns (λ r. After b waits st r.1) (do_handle pipes handler p st)
    event-After b waits st queue alive = rw d.runs (
        Returns-bind _ (kind b (record st { kernel = d.kernel }) alive) λ st' l. returns (record {
          new = l.new;
          queue = l.queue ∙ ap (λ q. q ++ l.new) d.left;
          live = λ c other live. rw other (l.live c live);
        }))
      where
        d : Delivers pipes laws handler p b waits st
        d = do_handle_oldest pipes laws handler p b waits st queue alive

    -- A message that waits in the pipe behind `ahead`, where all of these are in use and no two the same,
    -- is the next one, and in use, after an event for each message ahead of it, if every handler
    -- returns, deletes no message and takes none out of the pipe. Handlers may send further messages.
    pub events_lem :
        (ahead : List ℕ) (a : ℕ) (behind : List ℕ) (st : Mail pipes)
        → laws.queue st.kernel p ≡ ahead ++ (a ∷ behind)
        → Ready st (ahead ++ (a ∷ []))
        → Returns (IsNext a) (events (length ahead) st)
    unfolding events
    events_lem [] a behind st queue (ready-cons l other ls) =
        returns (record { behind = behind; queue = queue; live = l })
    events_lem (b ∷ ahead) a behind st queue (ready-cons l other ls) =
        Returns-bind _ (event-After b (ahead ++ (a ∷ behind)) st queue l) λ r after.
          events_lem ahead a (behind ++ after.new) r.1
            (after.queue ∙ append_assoc ahead (a ∷ behind) after.new) (Ready-After after other ls)
