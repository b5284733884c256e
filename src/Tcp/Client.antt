-- ===== src/Tcp/Client.antt =====
-- src/xma_socket.cpp: the ends of `OpenClient`.
use Prim.Native.String.{String}
use cpp_readline.Common.{
  bind_assoc, sym, ap, ℕ, suc, ◌≡◌, refl, none, some, Option, Bool, true, false, List, [], ◌∷◌, ℤ,
  inc, Result, ok, ◌>>=◌, ◌∙◌, Bool-cases, inl, inr, and_false,
}
use cpp_readline.Sys.{
  Sys, FdLaws, SockOpt, after_socket, in_out_err_hup, sndbuf, nodelay, quickack, ctl_mod,
  ConnectReply, done, in_progress,
}
use cpp_readline.Epoll.{Env, is_open, close}
use cpp_readline.Socket.{Socket, connecting, set_state, sys_err}
use cpp_readline.Tcp.{
  set_listener, can_open, is_zero, open_client, after_client_socket, set_options, connect_client,
  after_connect, start_client, after_client_events, reset, give_up,
}
use cpp_readline.Tcp.Opening.{
  Opening, declined, opened, holding, drop_fd-Opening, start-Opening, close-Opening,
  set_events-Opening,
}

-- connect(2) failed, and is not in progress
unfoldable pub is_refused : ConnectReply → Bool
is_refused done = false
is_refused in_progress = false
is_refused ConnectReply.failed = true

-- A client on the descriptor `fd` that waits for its connection to the address and port it was given:
-- connect(2) succeeded or is in progress.
pub record Connects (sys : Sys) (addr : String) (port : ℕ) (t : Socket) : Type 0 where
  pub state : t.state ≡ connecting
  pub peer_addr_is : t.peer_addr ≡ addr
  pub peer_port_is : t.peer_port ≡ port
  pub fd : ℕ
  pub fd_is : t.listener ≡ holding fd
  pub before : sys.Kernel
  pub went : is_refused (sys.connect before fd addr port).0 ≡ false

-- the call that failed while a client was opened
pub data ClientFails (sys : Sys) (addr : String) (port : ℕ) : Type 0 where
  no_socket : (k : sys.Kernel) → (sys.socket k).0 ≡ none → ClientFails sys addr port
  no_option :
      (k : sys.Kernel) (fd : ℕ) (opt : SockOpt)
      → is_zero (sys.setsockopt k fd opt).0 ≡ false
      → ClientFails sys addr port
  not_connected :
      (k : sys.Kernel) (fd : ℕ)
      → is_refused (sys.connect k fd addr port).0 ≡ true
      → ClientFails sys addr port
  not_watched :
      (k : sys.Kernel) (fd : ℕ)
      → (sys.epoll_ctl k ctl_mod (some fd) (some in_out_err_hup)).0 ≡ false
      → ClientFails sys addr port

module _ (sys : Sys) (laws : FdLaws sys) (n : ℕ) (z : ℤ) (addr : String) (port : ℕ) where
  open laws use {held, held-socket, held-setsockopt, held-connect}

  abbrev Outcome : Result (Bool × Socket × Env sys) → Type 0
  Outcome = Opening sys laws n z (ClientFails sys addr port) (Connects sys addr port)

  reset-Opening :
      ClientFails sys addr port
      → (s : Socket) (fd : ℕ) (env : Env sys) → s.last_err ≡ sys_err
      → held env.kernel ≡ suc n
      → env.fds ≡ inc z
      → Outcome (reset sys (set_listener s (holding fd)) env >>= λ r. ok (false, r.0, r.1))
  unfolding reset
  reset-Opening why s fd env err one_more count = rw (bind_assoc (close sys (holding fd) env)) (
      close-Opening sys laws n z (ClientFails sys addr port) (Connects sys addr port) fd env _
        one_more count (λ env' held' count'. declined why _ _ refl err refl held' count'))

  after_client_events-Opening :
      (s : Socket) (fd : ℕ) (k : sys.Kernel) (r : Bool × Env sys)
      → is_refused (sys.connect k fd addr port).0 ≡ false
      → (r.0 ≡ false → ClientFails sys addr port)
      → s.state ≡ connecting
      → held r.1.kernel ≡ suc n
      → r.1.fds ≡ inc z
      → Outcome (after_client_events sys (set_listener s (holding fd)) addr port r)
  unfolding after_client_events
  after_client_events-Opening s fd k (true, env) went why st one_more count =
      opened _ _
        record {
          state = st;
          peer_addr_is = refl;
          peer_port_is = refl;
          fd = fd;
          fd_is = refl;
          before = k;
          went = went;
        }
        fd refl one_more count
  after_client_events-Opening s fd k (false, env) went why st one_more count =
      reset-Opening (why refl) (give_up s) fd env refl one_more count

  start_client-Opening :
      (s : Socket) (fd : ℕ) (k : sys.Kernel) (env : Env sys)
      → is_refused (sys.connect k fd addr port).0 ≡ false
      → s.listener.fd ≡ none
      → held env.kernel ≡ suc n
      → env.fds ≡ z
      → Outcome (start_client sys s addr port fd env)
  unfolding start_client
  start_client-Opening s fd k env good shut one_more count =
      start-Opening sys laws n z (ClientFails sys addr port) (Connects sys addr port) s.listener fd
        env _ shut one_more count
        (λ env' held' count' there.
          set_events-Opening sys laws n z (ClientFails sys addr port) (Connects sys addr port) fd
            in_out_err_hup env' _ held' count'
            (λ went env'' held'' count'' why.
              after_client_events-Opening (set_state s connecting) fd k (went, env'') good
                (λ e. not_watched env'.kernel fd (sym why ∙ e)) refl held'' count''))

  after_connect-Opening :
      (s : Socket) (fd : ℕ) (k : sys.Kernel) (r : ConnectReply × Env sys)
      → r.0 ≡ (sys.connect k fd addr port).0
      → s.listener.fd ≡ none
      → held r.1.kernel ≡ suc n
      → r.1.fds ≡ z
      → Outcome (after_connect sys s addr port fd r)
  unfolding after_connect is_refused
  after_connect-Opening s fd k (done, env) is shut one_more count =
      start_client-Opening s fd k env (ap is_refused (sym is)) shut one_more count
  after_connect-Opening s fd k (in_progress, env) is shut one_more count =
      start_client-Opening s fd k env (ap is_refused (sym is)) shut one_more count
  after_connect-Opening s fd k (ConnectReply.failed, env) is shut one_more count =
      drop_fd-Opening sys laws n z (ClientFails sys addr port) (Connects sys addr port)
        (not_connected k fd (ap is_refused (sym is))) s fd env shut one_more count

  set_options-Opening :
      (opts : List SockOpt) (s : Socket) (fd : ℕ) (env : Env sys)
      → s.listener.fd ≡ none
      → held env.kernel ≡ suc n
      → env.fds ≡ z
      → Outcome (set_options sys opts s addr port fd env)
  unfolding set_options connect_client
  set_options-Opening [] s fd env shut one_more count =
      after_connect-Opening s fd env.kernel _ refl shut
        (held-connect env.kernel fd addr port ∙ one_more) count
  set_options-Opening (opt ∷ opts) s fd env shut one_more count =
      elim (Bool-cases (is_zero (sys.setsockopt env.kernel fd opt).0)) [
        | inl went ↦ rw went (
            set_options-Opening opts s fd _ shut (held-setsockopt env.kernel fd opt ∙ one_more)
              count)
        | inr bad ↦ rw bad (
            drop_fd-Opening sys laws n z (ClientFails sys addr port) (Connects sys addr port)
              (no_option env.kernel fd opt bad) s fd _ shut
              (held-setsockopt env.kernel fd opt ∙ one_more) count)
      ]

  after_client_socket-Opening :
      (s : Socket) (r : Option ℕ × Env sys)
      → s.listener.fd ≡ none
      → (r.0 ≡ none → ClientFails sys addr port)
      → held r.1.kernel ≡ after_socket r.0 n
      → r.1.fds ≡ z
      → Outcome (after_client_socket sys s addr port r)
  unfolding after_client_socket
  after_client_socket-Opening s (none, env) shut why same count =
      declined (why refl) _ _ refl refl (ap is_open shut) same count
  after_client_socket-Opening s (some fd, env) shut why one_more count =
      set_options-Opening (sndbuf ∷ nodelay ∷ quickack ∷ []) s fd env shut one_more count

pub open_client_lem :
    (sys : Sys) (laws : FdLaws sys) (s : Socket) (addr : String) (port : ℕ) (env : Env sys)
    → can_open s.state ≡ true
    → s.listener.fd ≡ none
    → Opening sys laws
        (laws.held env.kernel)
        env.fds
        (ClientFails sys addr port)
        (Connects sys addr port)
        (open_client sys s addr port env)
unfolding open_client
open_client_lem sys laws s addr port env ready shut =
    rw (ready, ap is_open shut, and_false sys.asserts)
      (after_client_socket-Opening sys laws (laws.held env.kernel) env.fds addr port s _ shut
        (no_socket env.kernel) (laws.held-socket env.kernel) refl)
