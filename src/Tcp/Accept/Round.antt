-- ===== src/Tcp/Accept/Round.antt =====
-- src/xma_socket.cpp: what one round of `Accept` does with the descriptors of the process.
use cpp_readline.Common.{
  ℕ, suc, ◌≡◌, ◌⊎◌, inl, inr, refl, sym, subst, ◌∙◌, none, Bool, true, false, if◌then◌else◌, ℤ, pos,
  negsuc, inc, Result, ok, fault, exception, ◌>>=◌, Returns, Returns-elim,
}
use cpp_readline.Sys.{Sys, FdLaws, in_err_hup}
use cpp_readline.Epoll.{Env, set_events}
use cpp_readline.Epoll.Laws.{CtlFails, not_removed}
use cpp_readline.Socket.{Socket, connected, count_one, set_state}
use cpp_readline.Tcp.{set_listener}
use cpp_readline.Machine.{store_addr_info}
use cpp_readline.Machine.Names.{store_addr_info-listener}
use cpp_readline.Tcp.Opening.{holding, start-elim, set_events-elim}
use cpp_readline.Tcp.Release.{Holds, holds, delete_stream-Released, Released-elim}
use cpp_readline.Tcp.Accept.{
  Application, Accepting, after_accept, welcome, after_events, after_on_accept, drop_stream,
  count_accepted, count_accept_failed,
}

-- What the application does with a stream: `own n` holds while it keeps `n` of them. `OnCreate` gives a
-- stream without a descriptor. `OnAccept` keeps the stream that it is given where it returns true, and
-- opens and closes nothing.
pub record IsKeeping (sys : Sys) (laws : FdLaws sys) (A : Type 0) (own : ℕ → A → Type 0)
    (app : Application sys A) : Type 0 where
  pub creates : (fd : ℕ) → Returns (λ s. s.listener.fd ≡ none) (app.on_create fd)
  pub keeps :
      (n : ℕ) (s : Socket) (a : A) (env : Env sys)
      → Holds s
      → own n a
      → Returns
          (λ r.
            own (if r.0 then suc n else n) r.1
            × (laws.held r.2.kernel ≡ laws.held env.kernel)
            × (r.2.fds ≡ env.fds))
          (app.on_accept s a env)

module _ (sys : Sys) (laws : FdLaws sys) (A : Type 0) (own : ℕ → A → Type 0) where
  open laws use {held, held-setsockopt}

  -- The process holds `n` descriptors, of which `z` are registered.
  pub record At (n : ℕ) (z : ℤ) (env : Env sys) : Type 0 where
    pub same : held env.kernel ≡ n
    pub count : env.fds ≡ z

  -- one round of the loop
  pub data Round (m n : ℕ) (z : ℤ) (s : Socket) : Result (Accepting sys A) → Type 0 where
    took :
        (t : Socket) (a : A) (env : Env sys)
        → own (suc m) a
        → At (suc n) (inc z) env
        → t.listener ≡ s.listener
        → t.stats.accepted ≡ count_one s.stats.accepted
        → t.stats.accepted_failed ≡ s.stats.accepted_failed
        → Round m n z s (ok (t, a, env))
    dropped :
        (t : Socket) (a : A) (env : Env sys)
        → own m a
        → At n z env
        → t.listener ≡ s.listener
        → t.stats.accepted ≡ s.stats.accepted
        → t.stats.accepted_failed ≡ count_one s.stats.accepted_failed
        → Round m n z s (ok (t, a, env))
    failed : CtlFails sys → Round m n z s (fault exception)

  module _ (app : Application sys A) (keeping : IsKeeping sys laws A own app) where
    drop_stream-Round :
        (m n : ℕ) (z : ℤ) (s sock : Socket) (a : A) (env : Env sys)
        → own m a
        → Holds sock
        → At (suc n) (inc z) env
        → Round m n z s (drop_stream sys A s sock a env)
    unfolding drop_stream count_accept_failed
    drop_stream-Round m n z s sock a env o h at =
        Released-elim sys laws (Round m n z s) _
          (delete_stream-Released sys laws n z sock env h at.same at.count)
          (λ bad. failed (not_removed _ _ bad))
          λ env' more count.
            dropped _ a env' o (record { same = more; count = count }) refl refl refl

    after_on_accept-Round :
        (m n : ℕ) (z : ℤ) (s sock : Socket) (r : Bool × A × Env sys)
        → Holds sock
        → own (if r.0 then suc m else m) r.1
        → At (suc n) (inc z) r.2
        → Round m n z s (after_on_accept sys A s sock r)
    unfolding after_on_accept count_accepted
    after_on_accept-Round m n z s sock (true, a, env) h o at = took _ a env o at refl refl refl
    after_on_accept-Round m n z s sock (false, a, env) h o at =
        drop_stream-Round m n z s sock a env o h at

    after_events-Round :
        (m n : ℕ) (z : ℤ) (s sock : Socket) (a : A) (went : Bool) (env : Env sys)
        → own m a
        → Holds sock
        → At (suc n) (inc z) env
        → Round m n z s (after_events sys A app s sock a (went, env))
    unfolding after_events
    after_events-Round m n z s sock a true env o h at =
        Returns-elim (Round m n z s) _ (keeping.keeps m sock a env h o) λ r k.
          after_on_accept-Round m n z s sock r h k.0
            (record { same = k.1 ∙ at.same; count = k.2 ∙ at.count })
    after_events-Round m n z s sock a false env o h at = drop_stream-Round m n z s sock a env o h at

    -- the loop from `SetEvents` on
    settle_in :
        (m n : ℕ) (z : ℤ) (s : Socket) (fd : ℕ) (a : A)
        → own m a
        → (sock : Socket) (env : Env sys) → sock.listener ≡ holding fd
        → At (suc n) (inc z) env
        → Round m n z s
            (set_events sys sock.listener in_err_hup env >>= after_events sys A app s sock a)
    settle_in m n z s fd a o sock env e at =
        subst
          (λ l. Round m n z s (set_events sys l in_err_hup env >>= after_events sys A app s sock a))
          (sym e)
          (set_events-elim sys laws (suc n) (inc z) fd in_err_hup env (Round m n z s) _ at.same
            at.count
            λ went env' same count is.
              after_events-Round m n z s sock a went env' o (holds fd e)
                (record { same = same; count = count }))

    welcome-Round :
        (m n : ℕ) (z : ℤ) (s : Socket) (fd : ℕ) (a : A) (env : Env sys)
        → own m a
        → At (suc n) z env
        → Round m n z s (welcome sys A app s fd a env)
    unfolding welcome
    welcome-Round m n z s fd a env o at =
        Returns-elim (Round m n z s) _ (keeping.creates fd) λ sock shut.
          start-elim sys laws (suc n) z sock.listener fd env (Round m n z s) _ shut at.same at.count
            failed
            λ env' same count there.
              settle_in m n z s fd a o
                (set_state (store_addr_info sys (set_listener sock (holding fd)) env').1 connected)
                env' (store_addr_info-listener sys (set_listener sock (holding fd)) env')
                (record { same = same; count = count })

    pub after_accept-Round :
        (m n : ℕ) (z : ℤ) (s : Socket) (fd : ℕ) (r : ℤ × sys.Kernel) (a : A) (env : Env sys)
        → own m a
        → (r.0 ≡ pos 0) ⊎ (r.0 ≡ negsuc 0)
        → held r.1 ≡ suc n
        → env.fds ≡ z
        → Round m n z s (after_accept sys A app s fd r a env)
    unfolding after_accept
    after_accept-Round m n z s fd (ret, k) a env o (inl zero_ret) same count = rw zero_ret (
        welcome-Round m n z s fd a (record env { kernel = k }) o
          (record { same = same; count = count }))
    after_accept-Round m n z s fd (ret, k) a env o (inr minus_one) same count = rw minus_one (
        welcome-Round m n z s fd a (record env { kernel = k }) o
          (record { same = same; count = count }))
