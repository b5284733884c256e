-- ===== src/Epoll/Laws.antt =====
-- src/xma_epoll.cpp: `EpollListener::SetEvents` and the bytes of a stream.
use cpp_readline.Common.{
  Result, ok, fault, exception, ap, Bool-cases, inl, inr, ◌≡◌, refl, none, some, true, false,
  Returns, returns, and_false,
}
use cpp_readline.Sys.{Sys, SysLaws, Fd, Events, ctl_mod, ctl_del, ctl_add}
use cpp_readline.Epoll.{EpollListener, Env, ctl, set_events, close, remove, removed, is_open}

-- The call of epoll_ctl(2) in `Epoll::Add` or in `Epoll::Remove` fails, in a state of the kernel. What is
-- shown holds for every `Sys`: where no such call fails, nothing throws.
pub data CtlFails (sys : Sys) : Type 0 where
  not_added :
      (k : sys.Kernel) (fd : Fd)
      → (sys.epoll_ctl k ctl_add fd (some sys.garbage)).0 ≡ false
      → CtlFails sys
  not_removed :
      (k : sys.Kernel) (fd : Fd) → (sys.epoll_ctl k ctl_del fd none).0 ≡ false → CtlFails sys

-- the call of epoll_ctl(2) in `Epoll::Remove` of the descriptor fails now
abbrev pub NotRemoved : (sys : Sys) → Env sys → Fd → Type 0
NotRemoved sys env fd = (sys.epoll_ctl env.kernel ctl_del fd none).0 ≡ false

module _ (sys : Sys) (laws : SysLaws sys) where
  open laws use {wire, wire-ctl}

  -- `SetEvents` on a listener that has its epoll object returns, and moves no bytes.
  pub set_events_lem :
      (l : EpollListener) (events : Events) (env : Env sys)
      → l.attached ≡ true
      → Returns
          (λ r. (g : Fd) → wire r.1.kernel g ≡ wire env.kernel g)
          (set_events sys l events env)
  unfolding set_events ctl
  set_events_lem l events env attached = go l.fd refl
    where
      go :
          (fd : Fd)
          → l.fd ≡ fd
          → Returns
              (λ r. (g : Fd) → wire r.1.kernel g ≡ wire env.kernel g)
              (set_events sys l events env)
      go none e = rw (e, set_events) (returns (λ g. refl))
      go (some n) e =
          rw (e, attached, set_events)
            (rw and_false (returns (λ g. wire-ctl env.kernel ctl_mod (some n) g (some events))))

  -- How `Close` ends on a listener that has its epoll object: with no descriptor, or with an exception
  -- and some call of epoll_ctl(2) fails.
  pub data Closes : Result (EpollListener × Env sys) → Type 0 where
    closed : (l : EpollListener) (env : Env sys) → l.fd ≡ none → Closes (ok (l, env))
    threw : CtlFails sys → Closes (fault exception)

  pub close_lem : (l : EpollListener) (env : Env sys) → l.attached ≡ true → Closes (close sys l env)
  unfolding close remove removed ctl
  close_lem l env attached = go l.fd refl
    where
      go : (fd : Fd) → l.fd ≡ fd → Closes (close sys l env)
      go none e = rw (ap is_open e, close) (closed l env e)
      go (some n) e =
          rw (ap is_open e, attached, close)
            (elim (Bool-cases (sys.epoll_ctl env.kernel ctl_del l.fd none).0) [
              | inl went ↦ rw went (closed _ _ refl)
              | inr bad ↦ rw bad (threw (not_removed _ _ bad))
            ])
