-- ===== src/Tcp/Opening.antt =====
-- src/xma_socket.cpp: what the ways through `OpenServer` and `OpenClient` share. A listener takes the
-- new descriptor by `Start` and gives it back by `Close`.
use cpp_readline.Common.{
  and_false, ℕ, suc, ◌-◌, ◌≡◌, refl, none, some, Bool, true, false, ℤ, inc, dec, pos, negsuc, zero,
  Result, ok, fault, exception, ◌>>=◌, ap, ◌∙◌, arith, Bool-cases, inl, inr, if◌then◌else◌,
}
use cpp_readline.Sys.{Sys, FdLaws, Events, ctl_add, ctl_del, ctl_mod}
use cpp_readline.Epoll.{
  EpollListener, Env, start, close, add, remove, ctl, added, removed, set_events, is_open,
}
use cpp_readline.Epoll.Laws.{CtlFails, NotRemoved, not_added, not_removed}
use cpp_readline.Socket.{Socket, sys_err}
use cpp_readline.Tcp.{can_open, Opened, drop_fd}

pub dec-inc : (z : ℤ) → dec (inc z) ≡ z
unfolding dec inc
dec-inc (pos n) = refl
dec-inc (negsuc zero) = refl
dec-inc (negsuc (suc n)) = refl

pub minus_one : {a n : ℕ} → a ≡ suc n → a - 1 ≡ n
minus_one e = omega arith

abbrev pub holding : ℕ → EpollListener
holding fd = record { fd = some fd; attached = true }

module _ (sys : Sys) (laws : FdLaws sys) where
  open laws use {held, held-ctl, held-close}

  -- `Close` of a listener with a descriptor that is registered: one descriptor less is held and
  -- registered, or the call of epoll_ctl(2) fails.
  pub close-elim :
      {B : Type 0} (n : ℕ) (z : ℤ) (fd : ℕ) (env : Env sys) (Q : Result B → Type 0)
      (rest : EpollListener × Env sys → Result B)
      → held env.kernel ≡ suc n
      → env.fds ≡ inc z
      → (NotRemoved sys env (some fd) → Q (fault exception))
      → ((env' : Env sys)
          → held env'.kernel ≡ n
          → env'.fds ≡ z
          → Q (rest (record { fd = none; attached = true }, env')))
      → Q (close sys (holding fd) env >>= rest)
  unfolding close remove removed ctl
  close-elim n z fd env Q rest one_more count gone next =
      elim (Bool-cases (sys.epoll_ctl env.kernel ctl_del (some fd) none).0) [
        | inl went ↦ rw went (
            next _
              (held-close _ fd ∙ minus_one (held-ctl env.kernel ctl_del (some fd) none ∙ one_more))
              (ap dec count ∙ dec-inc z))
        | inr bad ↦ rw bad (gone bad)
      ]

  -- `Start` of a listener without a descriptor: the descriptor is registered, or some call of epoll_ctl(2) fails.
  pub start-elim :
      {B : Type 0} (n : ℕ) (z : ℤ) (l : EpollListener) (fd : ℕ) (env : Env sys)
      (Q : Result B → Type 0) (rest : Bool × EpollListener × Env sys → Result B)
      → l.fd ≡ none
      → held env.kernel ≡ n
      → env.fds ≡ z
      → (CtlFails sys → Q (fault exception))
      → ((env' : Env sys)
          → held env'.kernel ≡ n
          → env'.fds ≡ inc z
          → env'.kernel ≡ (sys.epoll_ctl env.kernel ctl_add (some fd) (some sys.garbage)).1
          → Q (rest (true, holding fd, env')))
      → Q (start sys l fd env >>= rest)
  unfolding start add added ctl
  start-elim n z l fd env Q rest shut same count gone next =
      rw (shut, is_open, if◌then◌else◌)
        (elim (Bool-cases (sys.epoll_ctl env.kernel ctl_add (some fd) (some sys.garbage)).0) [
          | inl went ↦ rw went (
              next _ (held-ctl env.kernel ctl_add (some fd) (some sys.garbage) ∙ same)
                (ap inc count) refl)
          | inr bad ↦ rw bad (gone (not_added _ _ bad))
        ])

  -- `SetEvents` of a listener with a descriptor that is registered never breaks its assertion.
  pub set_events-elim :
      {B : Type 0} (n : ℕ) (z : ℤ) (fd : ℕ) (ev : Events) (env : Env sys) (Q : Result B → Type 0)
      (rest : Bool × Env sys → Result B)
      → held env.kernel ≡ n
      → env.fds ≡ z
      → ((went : Bool) (env' : Env sys)
          → held env'.kernel ≡ n
          → env'.fds ≡ z
          → went ≡ (sys.epoll_ctl env.kernel ctl_mod (some fd) (some ev)).0
          → Q (rest (went, env')))
      → Q (set_events sys (holding fd) ev env >>= rest)
  unfolding set_events ctl
  set_events-elim n z fd ev env Q rest same count next =
      rw (and_false sys.asserts, if◌then◌else◌)
        (next _ _ (held-ctl env.kernel ctl_mod (some fd) (some ev) ∙ same) count refl)

  -- How a socket is opened when the process holds `n` descriptors and `z` of them are registered.
  -- Either it is `Good`, holds a descriptor more, and that is registered; or it can be opened again,
  -- reports SYS_ERR, nothing is held or registered that was not before, and there is the reason `Why`; or
  -- epoll_ctl(2) fails and the exception went through.
  pub data Opening (n : ℕ) (z : ℤ) (Why : Type 0) (Good : Socket → Type 0)
      : Result (Opened sys) → Type 0 where
    opened :
        (t : Socket) (env : Env sys)
        → Good t
        → (fd : ℕ) → t.listener ≡ holding fd
        → held env.kernel ≡ suc n
        → env.fds ≡ inc z
        → Opening n z Why Good (ok (true, t, env))
    declined :
        Why
        → (t : Socket) (env : Env sys) → can_open t.state ≡ true
        → t.last_err ≡ sys_err
        → is_open t.listener.fd ≡ false
        → held env.kernel ≡ n
        → env.fds ≡ z
        → Opening n z Why Good (ok (false, t, env))
    threw : CtlFails sys → Opening n z Why Good (fault exception)

  module _ (n : ℕ) (z : ℤ) (Why : Type 0) (Good : Socket → Type 0) where
    pub drop_fd-Opening :
        Why
        → (s : Socket) (fd : ℕ) (env : Env sys) → s.listener.fd ≡ none
        → held env.kernel ≡ suc n
        → env.fds ≡ z
        → Opening n z Why Good (ok (drop_fd sys s fd env))
    unfolding drop_fd
    drop_fd-Opening why s fd env shut one_more count =
        declined why _ _ refl refl (ap is_open shut) (held-close env.kernel fd ∙ minus_one one_more)
          count

    pub start-Opening :
        (l : EpollListener) (fd : ℕ) (env : Env sys)
        (rest : Bool × EpollListener × Env sys → Result (Opened sys))
        → l.fd ≡ none
        → held env.kernel ≡ suc n
        → env.fds ≡ z
        → ((env' : Env sys)
            → held env'.kernel ≡ suc n
            → env'.fds ≡ inc z
            → env'.kernel ≡ (sys.epoll_ctl env.kernel ctl_add (some fd) (some sys.garbage)).1
            → Opening n z Why Good (rest (true, holding fd, env')))
        → Opening n z Why Good (start sys l fd env >>= rest)
    start-Opening l fd env rest shut one_more count next =
        start-elim (suc n) z l fd env (Opening n z Why Good) rest shut one_more count threw next

    pub close-Opening :
        (fd : ℕ) (env : Env sys) (rest : EpollListener × Env sys → Result (Opened sys))
        → held env.kernel ≡ suc n
        → env.fds ≡ inc z
        → ((env' : Env sys)
            → held env'.kernel ≡ n
            → env'.fds ≡ z
            → Opening n z Why Good (rest (record { fd = none; attached = true }, env')))
        → Opening n z Why Good (close sys (holding fd) env >>= rest)
    close-Opening fd env rest one_more count next =
        close-elim n z fd env (Opening n z Why Good) rest one_more count
          (λ bad. threw (not_removed _ _ bad)) next

    pub set_events-Opening :
        (fd : ℕ) (ev : Events) (env : Env sys) (rest : Bool × Env sys → Result (Opened sys))
        → held env.kernel ≡ suc n
        → env.fds ≡ inc z
        → ((went : Bool) (env' : Env sys)
            → held env'.kernel ≡ suc n
            → env'.fds ≡ inc z
            → went ≡ (sys.epoll_ctl env.kernel ctl_mod (some fd) (some ev)).0
            → Opening n z Why Good (rest (went, env')))
        → Opening n z Why Good (set_events sys (holding fd) ev env >>= rest)
    set_events-Opening fd ev env rest one_more count next =
        set_events-elim (suc n) (inc z) fd ev env (Opening n z Why Good) rest one_more count next
