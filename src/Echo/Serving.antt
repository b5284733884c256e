-- ===== src/Echo/Serving.antt =====
-- example/server_service.hpp: the descriptors of an echo server while connections come in.
use cpp_readline.Common.{
  ℕ, zero, suc, ◌+◌, ◌≤◌, ◌<◌, ◌^◌, ◌≡◌, refl, sym, ap, ◌∙◌, length, length-append, List, [], ◌∷◌,
  ◌++◌, ℤ, inc, Result, ok, fault, exception, ◌>>=◌, returns, Returns-mono, arith,
}
use cpp_readline.Sys.{Sys, FdLaws}
use cpp_readline.Epoll.{Env}
use cpp_readline.Epoll.Laws.{CtlFails}
use cpp_readline.Socket.{Socket, max_buf_len_of}
use cpp_readline.Tcp.Fresh.{new_stream_lem}
use cpp_readline.Tcp.Release.{Holds, holds, AllHold, all-nil, all-cons, inc_by}
use cpp_readline.Tcp.Accept.{Accepting}
use cpp_readline.Tcp.Accept.Drain.{QueueLaws, IsServing}
use cpp_readline.Tcp.Accept.Round.{IsKeeping}
use cpp_readline.Tcp.Accept.Count.{AcceptLaws, Drained, drained, threw, accept-Drained}
use cpp_readline.Echo.Service.{EchoServer, on_accept}
use cpp_readline.Echo.Accepting.{on_create, echo_app, accept_on}

AllHold-snoc : {ss : List Socket} {s : Socket} → AllHold ss → Holds s → AllHold (ss ++ (s ∷ []))
AllHold-snoc all-nil h = all-cons h all-nil
AllHold-snoc (all-cons g gs) h = all-cons g (AllHold-snoc gs h)

Holds-same : {s t : Socket} → t.listener ≡ s.listener → Holds s → Holds t
Holds-same l (holds fd e) = holds fd (l ∙ e)

inc_by-same : (a b : ℕ) (z : ℤ) → a ≡ b → inc_by a z ≡ inc_by b z
inc_by-same a b z e = ap (λ k. inc_by k z) e

inc_by-add : (a b : ℕ) (z : ℤ) → inc_by a (inc_by b z) ≡ inc_by (a + b) z
unfolding inc_by
inc_by-add zero b z = inc_by-same b (0 + b) z (omega arith)
inc_by-add (suc a) b z =
    ap inc (inc_by-add a b z) ∙ inc_by-same (suc (a + b)) (suc a + b) z (omega arith)

-- a server that keeps `n` streams, each with a descriptor that is registered
record Keeps (n : ℕ) (sv : EchoServer) : Type 0 where
  all : AllHold sv.streams
  many : length sv.streams ≡ n

module _ (sys : Sys) (laws : FdLaws sys) where
  open laws use {held}

  -- The server listens, it keeps streams, and each has a descriptor that is registered; the process holds
  -- these and `n` others, of which `z` are registered.
  pub record IsUp (n : ℕ) (z : ℤ) (sv : EchoServer) (env : Env sys) : Type 0 where
    pub listens : Holds sv.socket
    pub streams : AllHold sv.streams
    pub same : held env.kernel ≡ suc (length sv.streams + n)
    pub count : env.fds ≡ inc_by (length sv.streams) (inc z)

  -- The server is up, or some call of epoll_ctl(2) fails.
  pub data StaysUp (n : ℕ) (z : ℤ) : Result (EchoServer × Env sys) → Type 0 where
    up : (sv : EchoServer) (env : Env sys) → IsUp n z sv env → StaysUp n z (ok (sv, env))
    failed : CtlFails sys → StaysUp n z (fault exception)

  module _ (queue : QueueLaws sys) (tx_rate : ℕ → ℕ) (now garbage len : ℕ)
      (rate_small : (n : ℕ) → tx_rate n ≤ n) (small : max_buf_len_of len < 2 ^ 29) where
    echo-IsServing : IsServing sys queue EchoServer (echo_app sys tx_rate now garbage len)
    unfolding on_create
    echo-IsServing = record {
      creates = λ fd.
          Returns-mono (new_stream_lem tx_rate now garbage garbage len rate_small small) λ s f. tt;
      accepts = λ s sv env. returns (omega arith);
    }

    echo-IsKeeping : IsKeeping sys laws EchoServer Keeps (echo_app sys tx_rate now garbage len)
    unfolding on_create on_accept
    echo-IsKeeping = record {
      creates = λ fd.
          Returns-mono (new_stream_lem tx_rate now garbage garbage len rate_small small)
            λ s f. f.shut;
      keeps = λ n s sv env h k. returns (
        record {
          all = AllHold-snoc k.all h;
          many = omega (arith, length-append sv.streams (s ∷ []), k.many);
        },
        refl,
        refl,
      );
    }

    Drained-StaysUp :
        (n : ℕ) (z : ℤ) (sv : EchoServer) (env : Env sys) {r : Result (Accepting sys EchoServer)}
        → IsUp n z sv env
        → Drained sys laws EchoServer Keeps
            (length sv.streams)
            (held env.kernel)
            env.fds
            sv.socket
            r
        → StaysUp n z (r >>= λ q. ok (record q.1 { socket = q.0 }, q.2))
    Drained-StaysUp n z sv env is (drained new refused t sv' env' k more count l acc fail) =
        up _ env' (record {
          listens = Holds-same l is.listens;
          streams = k.all;
          same = omega (arith, more, is.same, k.many);
          count =
              count
              ∙ ap (inc_by new) is.count
              ∙ inc_by-add new (length sv.streams) (inc z)
              ∙ ap (λ j. inc_by j (inc z)) (sym k.many);
        })
    Drained-StaysUp n z sv env is (threw c) = failed c

    -- `Accept` on an echo server that is up, whatever connections wait and with fuel for more rounds than
    -- they are, never breaks an assertion: while no other arrives it ends with the server up and no other
    -- descriptor left, or it throws and some call of epoll_ctl(2) fails.
    pub accept_on_lem :
        (more : AcceptLaws sys laws) (n fuel : ℕ) (z : ℤ) (sv : EchoServer) (env : Env sys)
        → IsUp n z sv env
        → queue.waiting env.kernel < fuel
        → StaysUp n z (accept_on sys tx_rate now garbage len fuel sv env)
    unfolding accept_on
    accept_on_lem more n fuel z sv env is enough = Drained-StaysUp n z sv env is (
        accept-Drained sys laws more queue EchoServer Keeps (echo_app sys tx_rate now garbage len)
          (length sv.streams) fuel sv.socket sv env echo-IsServing echo-IsKeeping
          (record { all = is.streams; many = refl }) enough)
