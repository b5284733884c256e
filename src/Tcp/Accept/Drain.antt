-- ===== src/Tcp/Accept/Drain.antt =====
-- src/xma_socket.cpp: the loop of `Accept` ends.
use cpp_readline.Common.{
  ℕ, zero, suc, ◌≤◌, ◌<◌, ◌≡◌, refl, Option, none, some, Bool, true, false, ℤ, Result, ok, fault,
  Fault, out_of_fuel, assertion, exception, out_of_bounds, int_overflow, ◌>>=◌, Bool-cases, inl,
  inr, ◌&&◌, not, arith, Returns, returns,
}
use cpp_readline.Sys.{
  Sys, Fd, Events, CtlOp, SockOpt, ctl_add, ctl_del, ctl_mod, nodelay, in_err_hup,
}
use cpp_readline.Epoll.{
  EpollListener, Env, close, start, remove, removed, add, added, ctl, set_events, is_open,
}
use cpp_readline.Socket.{Socket}
use cpp_readline.Tcp.{reset}
use cpp_readline.Tcp.Release.{delete_stream}
use cpp_readline.Tcp.Accept.{
  Application, Accepting, accept, next_connection, after_accept, welcome, after_events,
  after_on_accept, drop_stream, is_not_one,
}

-- How many connections wait, and what the calls do with them while no other arrives.
pub record QueueLaws (sys : Sys) : Type 0 where
  pub waiting : sys.Kernel → ℕ
  pub waiting-ctl :
      (k : sys.Kernel) (op : CtlOp) (fd : Fd) (ev : Option Events)
      → waiting (sys.epoll_ctl k op fd ev).1 ≤ waiting k
  pub waiting-close : (k : sys.Kernel) (fd : Fd) → waiting (sys.close k fd) ≤ waiting k
  pub waiting-setsockopt :
      (k : sys.Kernel) (fd : ℕ) (opt : SockOpt) → waiting (sys.setsockopt k fd opt).1 ≤ waiting k
  pub waiting-none :
      (k : sys.Kernel) (fd : Fd)
      → (sys.accept k fd).0 ≡ none
      → waiting (sys.accept k fd).1 ≤ waiting k
  pub waiting-some :
      (k : sys.Kernel) (fd : Fd) (new : ℕ)
      → (sys.accept k fd).0 ≡ some new
      → waiting (sys.accept k fd).1 < waiting k

abbrev pub out_of_rounds : Fault → Bool
out_of_rounds out_of_fuel = true
out_of_rounds assertion = false
out_of_rounds out_of_bounds = false
out_of_rounds int_overflow = false
out_of_rounds exception = false

module _ (sys : Sys) (laws : QueueLaws sys) where
  open laws use {waiting, waiting-ctl, waiting-close, waiting-setsockopt}

  -- The code returns with at most `n` connections waiting, or ends with a fault of the program.
  pub data Settles {A : Type 0} (n : ℕ) (env : A → Env sys) : Result A → Type 0 where
    settled : {a : A} → waiting (env a).kernel ≤ n → Settles n env (ok a)
    broke : {f : Fault} → out_of_rounds f ≡ false → Settles n env (fault f)

  Settles-bind :
      {A B : Type 0} {m n : ℕ} {e : A → Env sys} {g : B → Env sys} {r : Result A} (k : A → Result B)
      → Settles m e r
      → ((a : A) → waiting (e a).kernel ≤ m → Settles n g (k a))
      → Settles n g (r >>= k)
  Settles-bind k (settled h) next = next _ h
  Settles-bind k (broke f) next = broke f

  remove-Settles :
      (n : ℕ) (l : EpollListener) (env : Env sys)
      → waiting env.kernel ≤ n
      → Settles n (λ e. e) (remove sys l env)
  unfolding remove removed ctl
  remove-Settles n l env h = elim (Bool-cases (sys.epoll_ctl env.kernel ctl_del l.fd none).0) [
    | inl went ↦ rw went (settled (omega (arith, waiting-ctl env.kernel ctl_del l.fd none)))
    | inr bad ↦ rw bad (broke refl)
  ]

  close-Settles :
      (n : ℕ) (l : EpollListener) (env : Env sys)
      → waiting env.kernel ≤ n
      → Settles n (λ r. r.1) (close sys l env)
  unfolding close
  close-Settles n l env h = elim (Bool-cases (is_open l.fd && l.attached)) [
    | inl registered ↦ rw registered (
        Settles-bind _ (remove-Settles n l env h)
          λ env' h'. settled (omega (arith, waiting-close env'.kernel l.fd)))
    | inr idle ↦ rw idle (settled h)
  ]

  add-Settles :
      (n : ℕ) (l : EpollListener) (env : Env sys)
      → waiting env.kernel ≤ n
      → Settles n (λ r. r.1) (add sys l env)
  unfolding add added ctl
  add-Settles n l env h =
      elim (Bool-cases (sys.epoll_ctl env.kernel ctl_add l.fd (some sys.garbage)).0) [
        | inl went ↦
            rw went
              (settled (omega (arith, waiting-ctl env.kernel ctl_add l.fd (some sys.garbage))))
        | inr bad ↦ rw bad (broke refl)
      ]

  start-Settles :
      (n : ℕ) (l : EpollListener) (fd : ℕ) (env : Env sys)
      → waiting env.kernel ≤ n
      → Settles n (λ r. r.2) (start sys l fd env)
  unfolding start
  start-Settles n l fd env h = elim (Bool-cases (is_open l.fd)) [
    | inl busy ↦ rw busy (settled h)
    | inr free ↦ rw free (Settles-bind _ (add-Settles n _ env h) λ r h'. settled h')
  ]

  set_events-Settles :
      (n : ℕ) (l : EpollListener) (ev : Events) (env : Env sys)
      → waiting env.kernel ≤ n
      → Settles n (λ r. r.1) (set_events sys l ev env)
  unfolding set_events ctl
  set_events-Settles n l ev env h = elim (Bool-cases (not (is_open l.fd))) [
    | inl shut ↦ rw shut (settled h)
    | inr ready ↦ rw ready (elim (Bool-cases (sys.asserts && not l.attached)) [
      | inl aborts ↦ rw aborts (broke refl)
      | inr passes ↦ rw passes (elim (Bool-cases l.attached) [
        | inl here ↦
            rw here (settled (omega (arith, waiting-ctl env.kernel ctl_mod l.fd (some ev))))
        | inr null ↦ rw null (settled h)
      ])
    ])
  ]

-- What `Accept` needs of the application: `OnCreate` gives a stream, and `OnAccept` returns and lets no
-- connection in.
pub record IsServing (sys : Sys) (laws : QueueLaws sys) (A : Type 0) (app : Application sys A)
    : Type 0 where
  pub creates : (fd : ℕ) → Returns (λ _. Unit {0}) (app.on_create fd)
  pub accepts :
      (s : Socket) (a : A) (env : Env sys)
      → Returns (λ r. laws.waiting r.2.kernel ≤ laws.waiting env.kernel) (app.on_accept s a env)

module _ (sys : Sys) (laws : QueueLaws sys) (A : Type 0) (app : Application sys A)
    (serving : IsServing sys laws A app) where
  open laws use {
    waiting, waiting-ctl, waiting-close, waiting-setsockopt, waiting-none, waiting-some,
  }

  of_Returns :
      {B : Type 0} {n : ℕ} {e : B → Env sys} {P : B → Type 0} {m : Result B}
      → Returns P m
      → ((b : B) → P b → waiting (e b).kernel ≤ n)
      → Settles sys laws n e m
  of_Returns (returns p) le = settled (le _ p)

  abbrev Ends : ℕ → Result (Accepting sys A) → Type 0
  Ends n = Settles sys laws n (λ r. r.2)

  delete_stream-Settles :
      (n : ℕ) (sock : Socket) (env : Env sys)
      → waiting env.kernel ≤ n
      → Settles sys laws n (λ e. e) (delete_stream sys sock env)
  unfolding delete_stream reset
  delete_stream-Settles n sock env h =
      Settles-bind sys laws {e = λ r. r.1} _
        (Settles-bind sys laws {g = λ r. r.1} _ (close-Settles sys laws n sock.listener env h)
          λ r h'. settled h')
        λ r h'.
          Settles-bind sys laws _ (close-Settles sys laws n r.0.listener r.1 h')
            λ q h''. settled h''

  drop_stream-Settles :
      (n : ℕ) (s sock : Socket) (a : A) (env : Env sys)
      → waiting env.kernel ≤ n
      → Ends n (drop_stream sys A s sock a env)
  unfolding drop_stream
  drop_stream-Settles n s sock a env h =
      Settles-bind sys laws _ (delete_stream-Settles n sock env h) λ e h'. settled h'

  after_on_accept-Settles :
      (n : ℕ) (s sock : Socket) (r : Bool × A × Env sys)
      → waiting r.2.kernel ≤ n
      → Ends n (after_on_accept sys A s sock r)
  unfolding after_on_accept
  after_on_accept-Settles n s sock (true, a, env) h = settled h
  after_on_accept-Settles n s sock (false, a, env) h = drop_stream-Settles n s sock a env h

  after_events-Settles :
      (n : ℕ) (s sock : Socket) (a : A) (r : Bool × Env sys)
      → waiting r.1.kernel ≤ n
      → Ends n (after_events sys A app s sock a r)
  unfolding after_events
  after_events-Settles n s sock a (true, env) h =
      Settles-bind sys laws {e = λ r. r.2} _
        (of_Returns (serving.accepts sock a env) λ r le. omega arith)
        (λ r. after_on_accept-Settles n s sock r)
  after_events-Settles n s sock a (false, env) h = drop_stream-Settles n s sock a env h

  welcome-Settles :
      (n : ℕ) (s : Socket) (fd : ℕ) (a : A) (env : Env sys)
      → waiting env.kernel ≤ n
      → Ends n (welcome sys A app s fd a env)
  unfolding welcome
  welcome-Settles n s fd a env h =
      Settles-bind sys laws {e = λ _. env} _ (of_Returns (serving.creates fd) λ _ _. h) λ sock _.
        Settles-bind sys laws _ (start-Settles sys laws n sock.listener fd env h) λ r h'.
          Settles-bind sys laws _ (set_events-Settles sys laws n _ in_err_hup r.2 h')
            λ q h''. after_events-Settles n s _ a q h''

  after_accept-Settles :
      (n : ℕ) (s : Socket) (fd : ℕ) (r : ℤ × sys.Kernel) (a : A) (env : Env sys)
      → waiting r.1 ≤ n
      → Ends n (after_accept sys A app s fd r a env)
  unfolding after_accept
  after_accept-Settles n s fd (ret, k) a env h = elim (Bool-cases (is_not_one ret)) [
    | inl always ↦ rw always (welcome-Settles n s fd a _ h)
    | inr never ↦ rw never (settled h)
  ]

  next_connection-Settles :
      (n : ℕ) (rest : Socket → A → Env sys → Result (Accepting sys A)) (s : Socket)
      (r : Option ℕ × sys.Kernel) (a : A) (env : Env sys)
      → (r.0 ≡ none → waiting r.1 ≤ n)
      → ((new : ℕ)
          → r.0 ≡ some new
          → (t : Socket) (b : A) (env' : Env sys) → waiting env'.kernel ≤ waiting r.1
          → Ends n (rest t b env'))
      → Ends n (next_connection sys A rest app s r a env)
  unfolding next_connection
  next_connection-Settles n rest s (none, k) a env last next = settled (last refl)
  next_connection-Settles n rest s (some fd, k) a env last next =
      Settles-bind sys laws _
        (after_accept-Settles (waiting k) s fd (sys.setsockopt k fd nodelay) a env
          (waiting-setsockopt k fd nodelay))
        (λ r. next fd refl r.0 r.1 r.2)

  accept-Settles :
      (n fuel : ℕ) (s : Socket) (a : A) (env : Env sys)
      → waiting env.kernel ≤ n
      → waiting env.kernel < fuel
      → Ends n (accept sys A fuel app s a env)
  unfolding accept
  accept-Settles n zero s a env h enough = absurd (omega arith)
  accept-Settles n (suc fuel) s a env h enough =
      next_connection-Settles n (accept sys A fuel app) s (sys.accept env.kernel s.listener.fd) a
        env (λ e. omega (arith, waiting-none env.kernel s.listener.fd e))
        (λ new e t b env' h'.
          accept-Settles n fuel t b env'
            (omega (arith, waiting-some env.kernel s.listener.fd new e))
            (omega (arith, waiting-some env.kernel s.listener.fd new e)))

-- While no other connection arrives, the loop of `Accept` ends: with fuel for more rounds than connections wait it never runs out of it,
-- where `OnCreate` gives a stream and `OnAccept` returns and lets no connection in. It returns with no
-- more connections waiting than before, or ends with a fault of the program.
pub accept_lem :
    (sys : Sys) (laws : QueueLaws sys) (A : Type 0) (app : Application sys A) (fuel : ℕ)
    (s : Socket) (a : A) (env : Env sys)
    → IsServing sys laws A app
    → laws.waiting env.kernel < fuel
    → Settles sys laws (laws.waiting env.kernel) (λ r. r.2) (accept sys A fuel app s a env)
accept_lem sys laws A app fuel s a env serving enough =
    accept-Settles sys laws A app serving (laws.waiting env.kernel) fuel s a env (omega arith)
      enough
