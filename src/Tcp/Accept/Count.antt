-- ===== src/Tcp/Accept/Count.antt =====
-- src/xma_socket.cpp: how many descriptors `Accept` leaves with the process.
use cpp_readline.Common.{
  ℕ, zero, suc, ◌+◌, ◌<◌, ◌≡◌, ◌⊎◌, inl, inr, refl, subst, ap, ◌∙◌, Option, none, some, ℤ, pos,
  negsuc, inc, Result, ok, fault, out_of_fuel, exception, ◌>>=◌, arith,
}
use cpp_readline.Sys.{Sys, FdLaws, Fd, SockOpt, nodelay, after_socket}
use cpp_readline.Epoll.{Env}
use cpp_readline.Epoll.Laws.{CtlFails}
use cpp_readline.Socket.{Socket, count_one}
use cpp_readline.Tcp.Release.{inc_by}
use cpp_readline.Tcp.Accept.{Application, Accepting, accept, next_connection}
use cpp_readline.Tcp.Accept.Round.{IsKeeping, At, Round, took, dropped, failed, after_accept-Round}
use cpp_readline.Tcp.Accept.Drain.{QueueLaws, IsServing, Settles, settled, broke, accept_lem}

-- What accept4(2) and setsockopt(2) are documented to return.
pub record AcceptLaws (sys : Sys) (laws : FdLaws sys) : Type 0 where
  pub held-accept :
      (k : sys.Kernel) (fd : Fd)
      → laws.held (sys.accept k fd).1 ≡ after_socket (sys.accept k fd).0 (laws.held k)
  pub zero_or_minus_one :
      (k : sys.Kernel) (fd : ℕ) (opt : SockOpt)
      → ((sys.setsockopt k fd opt).0 ≡ pos 0) ⊎ ((sys.setsockopt k fd opt).0 ≡ negsuc 0)

-- a counter after `n` events
unfoldable pub counted : ℕ → ℕ → ℕ
counted zero c = c
counted (suc n) c = count_one (counted n c)

module _ (sys : Sys) (laws : FdLaws sys) (A : Type 0) (own : ℕ → A → Type 0) where
  open laws use {held, held-setsockopt}

  -- How the loop of `Accept` ends on the listening socket `s`, when the application owned `m` streams and
  -- the process held `n` descriptors, of which `z` were registered. `drained`: the application keeps `new`
  -- streams more, each with a descriptor that is registered, as many were counted as accepted and
  -- `refused` as failed, and no other descriptor is left.
  pub data Drained (m n : ℕ) (z : ℤ) (s : Socket) : Result (Accepting sys A) → Type 0 where
    drained :
        (new refused : ℕ) (t : Socket) (a : A) (env : Env sys)
        → own (new + m) a
        → held env.kernel ≡ new + n
        → env.fds ≡ inc_by new z
        → t.listener ≡ s.listener
        → t.stats.accepted ≡ counted new s.stats.accepted
        → t.stats.accepted_failed ≡ counted refused s.stats.accepted_failed
        → Drained m n z s (ok (t, a, env))
    threw : CtlFails sys → Drained m n z s (fault exception)

  inc_by-inc : (n : ℕ) (z : ℤ) → inc_by n (inc z) ≡ inc (inc_by n z)
  unfolding inc_by
  inc_by-inc zero z = refl
  inc_by-inc (suc n) z = ap inc (inc_by-inc n z)

  counted-count_one : (n c : ℕ) → counted n (count_one c) ≡ count_one (counted n c)
  unfolding counted
  counted-count_one zero c = refl
  counted-count_one (suc n) c = ap count_one (counted-count_one n c)

  after_took :
      (m n : ℕ) (z : ℤ) (s t : Socket) {r : Result (Accepting sys A)}
      → t.listener ≡ s.listener
      → t.stats.accepted ≡ count_one s.stats.accepted
      → t.stats.accepted_failed ≡ s.stats.accepted_failed
      → Drained (suc m) (suc n) (inc z) t r
      → Drained m n z s r
  unfolding counted inc_by
  after_took m n z s t l acc fail (drained new refused u a env o h c l' acc' fail') =
      drained (suc new) refused u a env (subst (λ k. own k a) (omega arith) o) (omega arith)
        (c ∙ inc_by-inc new z) (l' ∙ l)
        (acc' ∙ ap (counted new) acc ∙ counted-count_one new s.stats.accepted)
        (fail' ∙ ap (counted refused) fail)
  after_took m n z s t l acc fail (threw c) = threw c

  after_dropped :
      (m n : ℕ) (z : ℤ) (s t : Socket) {r : Result (Accepting sys A)}
      → t.listener ≡ s.listener
      → t.stats.accepted ≡ s.stats.accepted
      → t.stats.accepted_failed ≡ count_one s.stats.accepted_failed
      → Drained m n z t r
      → Drained m n z s r
  unfolding counted
  after_dropped m n z s t l acc fail (drained new refused u a env o h c l' acc' fail') =
      drained new (suc refused) u a env o h c (l' ∙ l) (acc' ∙ ap (counted new) acc)
        (fail' ∙ ap (counted refused) fail ∙ counted-count_one refused s.stats.accepted_failed)
  after_dropped m n z s t l acc fail (threw c) = threw c

  module _ (app : Application sys A) (keeping : IsKeeping sys laws A own app) where
    -- With fuel for every round, or without.
    Spent : ℕ → ℕ → ℤ → Socket → Result (Accepting sys A) → Type 0
    Spent m n z s r = (r ≡ fault out_of_fuel) ⊎ Drained m n z s r

    Round-Spent :
        (m n : ℕ) (z : ℤ) (s : Socket) (rest : Socket → A → Env sys → Result (Accepting sys A))
        {r : Result (Accepting sys A)}
        → Round sys laws A own m n z s r
        → ((m n : ℕ) (z : ℤ) (t : Socket) (a : A) (env : Env sys)
            → own m a
            → At sys laws A own n z env
            → Spent m n z t (rest t a env))
        → Spent m n z s (r >>= λ q. rest q.0 q.1 q.2)
    unfolding Spent
    Round-Spent m n z s rest (took t a env o at l acc fail) next =
        elim (next (suc m) (suc n) (inc z) t a env o at) [
          | inl out ↦ inl out
          | inr d ↦ inr (after_took m n z s t l acc fail d)
        ]
    Round-Spent m n z s rest (dropped t a env o at l acc fail) next =
        elim (next m n z t a env o at) [
          | inl out ↦ inl out
          | inr d ↦ inr (after_dropped m n z s t l acc fail d)
        ]
    Round-Spent m n z s rest (failed c) next = inr (threw c)

    module _ (more : AcceptLaws sys laws) where
      next_connection-Spent :
          (m n : ℕ) (z : ℤ) (s : Socket) (rest : Socket → A → Env sys → Result (Accepting sys A))
          (r : Option ℕ × sys.Kernel) (a : A) (env : Env sys)
          → own m a
          → held r.1 ≡ after_socket r.0 n
          → env.fds ≡ z
          → ((m n : ℕ) (z : ℤ) (t : Socket) (b : A) (env' : Env sys)
              → own m b
              → At sys laws A own n z env'
              → Spent m n z t (rest t b env'))
          → Spent m n z s (next_connection sys A rest app s r a env)
      unfolding next_connection Spent counted inc_by
      next_connection-Spent m n z s rest (none, k) a env o same count next = inr (
          drained 0 0 s a _ (subst (λ k. own k a) (omega arith) o) (omega (arith, same)) count refl
            refl refl)
      next_connection-Spent m n z s rest (some fd, k) a env o same count next =
          Round-Spent m n z s rest
            (after_accept-Round sys laws A own app keeping m n z s fd (sys.setsockopt k fd nodelay)
              a env o (more.zero_or_minus_one k fd nodelay) (held-setsockopt k fd nodelay ∙ same)
              count)
            next

      accept-Spent :
          (fuel m n : ℕ) (z : ℤ) (s : Socket) (a : A) (env : Env sys)
          → own m a
          → At sys laws A own n z env
          → Spent m n z s (accept sys A fuel app s a env)
      unfolding accept Spent
      accept-Spent zero m n z s a env o at = inl refl
      accept-Spent (suc fuel) m n z s a env o at =
          next_connection-Spent m n z s (accept sys A fuel app)
            (sys.accept env.kernel s.listener.fd) a env o
            (more.held-accept env.kernel s.listener.fd
              ∙ ap (after_socket (sys.accept env.kernel s.listener.fd).0) at.same)
            at.count (accept-Spent fuel)

Settles-Drained :
    (sys : Sys) (laws : FdLaws sys) (queue : QueueLaws sys) (A : Type 0) (own : ℕ → A → Type 0)
    (m n w : ℕ) (z : ℤ) (s : Socket) (r : Result (Accepting sys A))
    → Settles sys queue w (λ q. q.2) r
    → (r ≡ fault out_of_fuel) ⊎ Drained sys laws A own m n z s r
    → Drained sys laws A own m n z s r
Settles-Drained sys laws queue A own m n w z s r ends (inr d) = d
Settles-Drained sys laws queue A own m n w z s (ok q) (settled h) (inl out) = cc
Settles-Drained sys laws queue A own m n w z s (fault f) (broke e) (inl out) = cc

pub accept-Drained :
    (sys : Sys) (laws : FdLaws sys) (more : AcceptLaws sys laws) (queue : QueueLaws sys)
    (A : Type 0) (own : ℕ → A → Type 0) (app : Application sys A) (m fuel : ℕ) (s : Socket) (a : A)
    (env : Env sys)
    → IsServing sys queue A app
    → IsKeeping sys laws A own app
    → own m a
    → queue.waiting env.kernel < fuel
    → Drained sys laws A own m (laws.held env.kernel) env.fds s (accept sys A fuel app s a env)
unfolding Spent
accept-Drained sys laws more queue A own app m fuel s a env serving keeping o enough =
    Settles-Drained sys laws queue A own m (laws.held env.kernel) (queue.waiting env.kernel) env.fds
      s _ (accept_lem sys queue A app fuel s a env serving enough)
      (accept-Spent sys laws A own app keeping more fuel m (laws.held env.kernel) env.fds s a env o
        (record { same = refl; count = refl }))
