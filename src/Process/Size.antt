-- ===== src/Process/Size.antt =====
-- src/xma_epoll.cpp: what `Epoll::Size` counts.
use cpp_readline.Common.{
  ℕ, ◌≡◌, refl, sym, ap, ap₂, ◌∙◌, Bool, true, false, List, [], ◌∷◌, ◌++◌, Option, none, some, pos,
  inc, dec, Result, ok, ok-injective, fault, exception, ◌>>=◌, Bool-cases, inl, inr, and_false,
}
use cpp_readline.Sys.{Sys, Fd, CtlOp, Events, ctl_add, ctl_del, in_err_hup}
use cpp_readline.Epoll.{
  EpollListener, Env, new_listener, ctl, added, add, removed, remove, close, start, set_events,
}
use cpp_readline.Epoll.Life.{EpollCreate, new_epoll, after_create, delete_listener}
use cpp_readline.Process.{PipeCalls, new_msg_listener}
use cpp_readline.Process.Tally.{counted, counted_none, count, count-append, has_fd, is_stray}
use cpp_readline.Process.Uses.{
  World, Step, made, made_msg, started, events_set, closed, deleted, other, Uses, unused, used,
}

module _ (sys : Sys) (calls : PipeCalls sys) where
  -- The code returns something that satisfies `P`, or throws and some call of epoll_ctl(2) fails.
  pub data OrCtlFails {A : Type 0} (P : A → Type 0) : Result A → Type 0 where
    fine : {a : A} → P a → OrCtlFails P (ok a)
    ctl_failed :
        (k : sys.Kernel) (op : CtlOp) (fd : Fd) (events : Option Events)
        → (sys.epoll_ctl k op fd events).0 ≡ false
        → OrCtlFails P (fault exception)

  OrCtlFails-bind :
      {A B : Type 0} {P : A → Type 0} {Q : B → Type 0} {r : Result A} (f : A → Result B)
      → OrCtlFails P r
      → ((a : A) → P a → OrCtlFails Q (f a))
      → OrCtlFails Q (r >>= f)
  OrCtlFails-bind f (fine p) next = next _ p
  OrCtlFails-bind f (ctl_failed k op fd events e) next = ctl_failed k op fd events e

  OrCtlFails-fine : {A : Type 0} {P : A → Type 0} {a : A} → OrCtlFails P (ok a) → P a
  OrCtlFails-fine (fine p) = p

  -- One listener beside `n` others that have descriptors.
  Balanced : ℕ → EpollListener × Env sys → Type 0
  Balanced n (l, env) = (env.fds ≡ pos (counted (has_fd l) n)) × (is_stray l ≡ false)

  abbrev listener : Fd → Bool → EpollListener
  listener fd attached = record { fd = fd; attached = attached }

  add-Balanced :
      (n fd : ℕ) (attached : Bool) (env : Env sys)
      → env.fds ≡ pos n
      → OrCtlFails (Balanced n) (add sys (listener (some fd) attached) env)
  unfolding add added ctl inc Balanced
  add-Balanced n fd attached env size =
      elim (Bool-cases (sys.epoll_ctl env.kernel ctl_add (some fd) (some sys.garbage)).0) [
        | inl went ↦ rw went (fine (rw size refl, refl))
        | inr bad ↦ rw bad (ctl_failed _ _ _ _ bad)
      ]

  start_at :
      (n fd : ℕ) (f : Fd) (attached : Bool) (env : Env sys)
      → Balanced n (listener f attached, env)
      → OrCtlFails (λ r. Balanced n (r.1, r.2)) (start sys (listener f attached) fd env)
  unfolding start Balanced
  start_at n fd none attached env (size, near) =
      OrCtlFails-bind _ (add-Balanced n fd attached env size) λ r b. fine b
  start_at n fd (some g) attached env b = fine b

  set_events_at :
      (n : ℕ) (f : Fd) (attached : Bool) (events : Events) (env : Env sys)
      → Balanced n (listener f attached, env)
      → OrCtlFails
          (λ r. Balanced n (listener f attached, r.1))
          (set_events sys (listener f attached) events env)
  unfolding set_events ctl Balanced
  set_events_at n none attached events env b = fine b
  set_events_at n (some g) true events env b = rw (and_false sys.asserts) (fine b)
  set_events_at n (some g) false events env (size, near) = cc

  close_at :
      (n : ℕ) (f : Fd) (attached : Bool) (env : Env sys)
      → Balanced n (listener f attached, env)
      → OrCtlFails (λ r. Balanced n r × (has_fd r.0 ≡ false)) (close sys (listener f attached) env)
  unfolding close remove removed ctl dec Balanced
  close_at n none attached env b = fine (b, refl)
  close_at n (some g) false env (size, near) = cc
  close_at n (some g) true env (size, near) =
      elim (Bool-cases (sys.epoll_ctl env.kernel ctl_del (some g) none).0) [
        | inl went ↦ rw went (fine ((rw size refl, refl), refl))
        | inr bad ↦ rw bad (ctl_failed _ _ _ _ bad)
      ]

  msg_listener_at :
      (n fd : ℕ) (env : Env sys)
      → env.fds ≡ pos n
      → OrCtlFails (Balanced n) (new_msg_listener sys calls fd env)
  unfolding new_msg_listener new_listener
  msg_listener_at n fd env size =
      OrCtlFails-bind _ (add-Balanced n fd false env size) λ r p.
        OrCtlFails-bind _ (set_events_at n r.0.fd r.0.attached in_err_hup r.1 p) λ r' b. fine b

  -- `Size` counts the listeners that have a descriptor, and each of them has its epoll object.
  pub IsCounted : World sys calls → Type 0
  IsCounted (ls, env) = (env.fds ≡ pos (count has_fd ls)) × (count is_stray ls ≡ 0)

  around :
      (front back : List EpollListener) (l : EpollListener) (env : Env sys)
      → IsCounted (front ++ (l ∷ back), env)
      → Balanced (count has_fd (front ++ back)) (l, env) × (count is_stray (front ++ back) ≡ 0)
  unfolding IsCounted Balanced
  around front back l env (size, near) =
      ((size ∙ ap pos (count-append has_fd front back l), q.0), q.1)
    where
      q : (is_stray l ≡ false) × (count is_stray (front ++ back) ≡ 0)
      q = counted_none (is_stray l) _ (sym (count-append is_stray front back l) ∙ near)

  put_back :
      (front back : List EpollListener) (l : EpollListener) (env : Env sys)
      → Balanced (count has_fd (front ++ back)) (l, env)
      → count is_stray (front ++ back) ≡ 0
      → IsCounted (front ++ (l ∷ back), env)
  unfolding IsCounted Balanced
  put_back front back l env (size, near) none_else = (
    size ∙ ap pos (sym (count-append has_fd front back l)),
    count-append is_stray front back l ∙ ap₂ counted near none_else,
  )

  take_out :
      (front back : List EpollListener) (l : EpollListener) (env : Env sys)
      → Balanced (count has_fd (front ++ back)) (l, env)
      → count is_stray (front ++ back) ≡ 0
      → has_fd l ≡ false
      → IsCounted (front ++ back, env)
  unfolding IsCounted Balanced
  take_out front back l env (size, near) none_else shut =
      (size ∙ ap (λ b. pos (counted b (count has_fd (front ++ back)))) shut, none_else)

  Step-IsCounted :
      {w : World sys calls} {r : Result (World sys calls)}
      → Step sys calls w r
      → IsCounted w
      → OrCtlFails IsCounted r
  unfolding delete_listener new_listener IsCounted
  Step-IsCounted (made ls env) c = fine c
  Step-IsCounted (made_msg ls env fd) c =
      OrCtlFails-bind _ (msg_listener_at _ fd env c.0) λ r b. fine (put_back [] ls r.0 r.1 b c.1)
  Step-IsCounted (started front back l env fd) c =
      let a = around front back l env c in
      OrCtlFails-bind _ (start_at _ fd l.fd l.attached env a.0)
        λ r b. fine (put_back front back r.1 r.2 b a.1)
  Step-IsCounted (events_set front back l env events) c =
      let a = around front back l env c in
      OrCtlFails-bind _ (set_events_at _ l.fd l.attached events env a.0)
        λ r b. fine (put_back front back l r.1 b a.1)
  Step-IsCounted (closed front back l env) c =
      let a = around front back l env c in
      OrCtlFails-bind _ (close_at _ l.fd l.attached env a.0)
        λ r b. fine (put_back front back r.0 r.1 b.0 a.1)
  Step-IsCounted (deleted front back l env) c =
      let a = around front back l env c in
      OrCtlFails-bind _
        (OrCtlFails-bind (λ r. ok r.1) (close_at _ l.fd l.attached env a.0)
          λ r b. fine (take_out front back r.0 r.1 b.0 a.1 b.1))
        λ env' d. fine d
  Step-IsCounted (other ls env k) c = fine c

  Uses-IsCounted :
      {w : World sys calls} {r : Result (World sys calls)}
      → Uses sys calls w r
      → IsCounted w
      → OrCtlFails IsCounted r
  Uses-IsCounted unused c = fine c
  Uses-IsCounted (used before step) c =
      Step-IsCounted step (OrCtlFails-fine (Uses-IsCounted before c))

  new_size :
      (reply : Option ℕ × sys.Kernel) (epoll_fd : ℕ) (env : Env sys)
      → after_create sys reply ≡ ok (epoll_fd, env)
      → env.fds ≡ pos 0
  unfolding after_create
  new_size (some fd, k) epoll_fd env e = sym (ap (λ r. r.1.fds) (ok-injective e))
  new_size (none, k) epoll_fd env e = cc

  -- Whatever the listeners of a new `Epoll` object do, in any order, with other system calls between: no
  -- assertion breaks, and unless a call of epoll_ctl(2) fails, `Size` is the number of the listeners that have a
  -- descriptor, and each of these has its epoll object.
  pub Uses-new_epoll :
      (create : EpollCreate sys) (k : sys.Kernel) (epoll_fd : ℕ) (env : Env sys)
      (r : Result (World sys calls))
      → new_epoll sys create k ≡ ok (epoll_fd, env)
      → Uses sys calls ([], env) r
      → OrCtlFails IsCounted r
  unfolding new_epoll after_create IsCounted
  Uses-new_epoll create k epoll_fd env r e uses =
      Uses-IsCounted uses (new_size (create k) epoll_fd env e, refl)
