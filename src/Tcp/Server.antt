-- ===== src/Tcp/Server.antt =====
-- src/xma_socket.cpp: the ends of `OpenServer`.
use Prim.Native.String.{String}
use cpp_readline.Common.{
  ap, ℕ, suc, ◌≡◌, refl, none, some, Option, true, false, ℤ, inc, ◌∙◌, Bool-cases, inl, inr,
  and_false, subst, Result,
}
use cpp_readline.Sys.{Sys, FdLaws, only_in, reuseaddr, ctl_add, after_socket}
use cpp_readline.Epoll.{Env, is_open}
use cpp_readline.Socket.{Socket, listening}
use cpp_readline.Tcp.{
  set_listener, can_open, is_minus_one, open_server, after_server_socket, after_reuseaddr,
  bind_server, after_bind, Opened, with_kernel, start_server, after_listen,
}
use cpp_readline.Tcp.Opening.{
  Opening, declined, opened, holding, drop_fd-Opening, start-Opening, close-Opening,
  set_events-Opening,
}

-- A server on the descriptor `fd` that bind(2) gave the address and the port, and that listens since then.
pub record Serves (sys : Sys) (addr : String) (port : ℕ) (t : Socket) : Type 0 where
  pub state : t.state ≡ listening
  pub addr_is : t.addr ≡ addr
  pub port_is : t.port ≡ port
  pub fd : ℕ
  pub fd_is : t.listener ≡ holding fd
  pub unbound : sys.Kernel
  pub bound : (sys.bind unbound fd addr port).0 ≡ true
  pub listens :
      (sys.listen
        (sys.epoll_ctl (sys.bind unbound fd addr port).1 ctl_add (some fd) (some sys.garbage)).1
        (some fd)).0
      ≡ true

-- the call that failed while a server was opened
pub data ServerFails (sys : Sys) (addr : String) (port : ℕ) : Type 0 where
  no_socket : (k : sys.Kernel) → (sys.socket k).0 ≡ none → ServerFails sys addr port
  no_reuse :
      (k : sys.Kernel) (fd : ℕ)
      → is_minus_one (sys.setsockopt k fd reuseaddr).0 ≡ true
      → ServerFails sys addr port
  not_bound :
      (k : sys.Kernel) (fd : ℕ) → (sys.bind k fd addr port).0 ≡ false → ServerFails sys addr port
  not_listening :
      (k : sys.Kernel) (fd : ℕ) → (sys.listen k (some fd)).0 ≡ false → ServerFails sys addr port

module _ (sys : Sys) (laws : FdLaws sys) (n : ℕ) (z : ℤ) (addr : String) (port : ℕ) where
  abbrev Outcome : Result (Opened sys) → Type 0
  Outcome = Opening sys laws n z (ServerFails sys addr port) (Serves sys addr port)

  open laws use {held, held-socket, held-setsockopt, held-bind, held-listen}

  after_listen-Opening :
      (s : Socket) (fd : ℕ) (k k' : sys.Kernel) (env : Env sys)
      → (sys.bind k fd addr port).0 ≡ true
      → k' ≡ (sys.epoll_ctl (sys.bind k fd addr port).1 ctl_add (some fd) (some sys.garbage)).1
      → held env.kernel ≡ suc n
      → env.fds ≡ inc z
      → Outcome (
          after_listen sys
            (set_listener s (holding fd))
            addr
            port
            ((sys.listen k' (some fd)).0, env))
  unfolding after_listen
  after_listen-Opening s fd k k' env bound there one_more count =
      elim (Bool-cases (sys.listen k' (some fd)).0) [
        | inl went ↦ rw went (
            set_events-Opening sys laws n z (ServerFails sys addr port) (Serves sys addr port) fd
              only_in env _ one_more count
              (λ set env' held' count' is.
                opened _ _
                  (record {
                    state = refl;
                    addr_is = refl;
                    port_is = refl;
                    fd = fd;
                    fd_is = refl;
                    unbound = k;
                    bound = bound;
                    listens = subst (λ q. (sys.listen q (some fd)).0 ≡ true) there went;
                  })
                  fd refl held' count'))
        | inr bad ↦ rw bad (
            close-Opening sys laws n z (ServerFails sys addr port) (Serves sys addr port) fd env _
              one_more count
              (λ env' held' count'.
                declined (not_listening k' fd bad) _ _ refl refl refl held' count'))
      ]

  start_server-Opening :
      (s : Socket) (fd : ℕ) (k : sys.Kernel) (env : Env sys)
      → (sys.bind k fd addr port).0 ≡ true
      → env.kernel ≡ (sys.bind k fd addr port).1
      → s.listener.fd ≡ none
      → held env.kernel ≡ suc n
      → env.fds ≡ z
      → Outcome (start_server sys s addr port fd env)
  unfolding start_server
  start_server-Opening s fd k env bound after shut one_more count =
      start-Opening sys laws n z (ServerFails sys addr port) (Serves sys addr port) s.listener fd
        env _ shut one_more count
        (λ env' held' count' there.
          after_listen-Opening s fd k env'.kernel _ bound
            (there ∙ ap (λ q. (sys.epoll_ctl q ctl_add (some fd) (some sys.garbage)).1) after)
            (held-listen env'.kernel (some fd) ∙ held') count')

  after_bind-Opening :
      (s : Socket) (fd : ℕ) (env : Env sys)
      → s.listener.fd ≡ none
      → held (sys.bind env.kernel fd addr port).1 ≡ suc n
      → env.fds ≡ z
      → Outcome (
          after_bind sys s addr port fd (
            (sys.bind env.kernel fd addr port).0,
            with_kernel sys env (sys.bind env.kernel fd addr port).1,
          ))
  unfolding after_bind
  after_bind-Opening s fd env shut one_more count =
      elim (Bool-cases (sys.bind env.kernel fd addr port).0) [
        | inl went ↦ rw went (start_server-Opening s fd env.kernel _ went refl shut one_more count)
        | inr bad ↦ rw bad (
            drop_fd-Opening sys laws n z (ServerFails sys addr port) (Serves sys addr port)
              (not_bound env.kernel fd bad) s fd _ shut one_more count)
      ]

  after_reuseaddr-Opening :
      (s : Socket) (fd : ℕ) (k : sys.Kernel) (env : Env sys)
      → s.listener.fd ≡ none
      → held env.kernel ≡ suc n
      → env.fds ≡ z
      → Outcome (after_reuseaddr sys s addr port fd ((sys.setsockopt k fd reuseaddr).0, env))
  unfolding after_reuseaddr bind_server
  after_reuseaddr-Opening s fd k env shut one_more count =
      elim (Bool-cases (is_minus_one (sys.setsockopt k fd reuseaddr).0)) [
        | inl bad ↦ rw bad (
            drop_fd-Opening sys laws n z (ServerFails sys addr port) (Serves sys addr port)
              (no_reuse k fd bad) s fd env shut one_more count)
        | inr went ↦
            rw went (
              after_bind-Opening s fd env shut (held-bind env.kernel fd addr port ∙ one_more) count)
      ]

  after_server_socket-Opening :
      (s : Socket) (r : Option ℕ × Env sys)
      → s.listener.fd ≡ none
      → (r.0 ≡ none → ServerFails sys addr port)
      → held r.1.kernel ≡ after_socket r.0 n
      → r.1.fds ≡ z
      → Outcome (after_server_socket sys s addr port r)
  unfolding after_server_socket
  after_server_socket-Opening s (none, env) shut why same count =
      declined (why refl) _ _ refl refl (ap is_open shut) same count
  after_server_socket-Opening s (some fd, env) shut why one_more count =
      after_reuseaddr-Opening s fd env.kernel _ shut
        (held-setsockopt env.kernel fd reuseaddr ∙ one_more) count

pub open_server_lem :
    (sys : Sys) (laws : FdLaws sys) (s : Socket) (addr : String) (port : ℕ) (env : Env sys)
    → can_open s.state ≡ true
    → s.listener.fd ≡ none
    → Opening sys laws
        (laws.held env.kernel)
        env.fds
        (ServerFails sys addr port)
        (Serves sys addr port)
        (open_server sys s addr port env)
unfolding open_server
open_server_lem sys laws s addr port env ready shut =
    rw (ready, ap is_open shut, and_false sys.asserts)
      (after_server_socket-Opening sys laws (laws.held env.kernel) env.fds addr port s _ shut
        (no_socket env.kernel) (laws.held-socket env.kernel) refl)
