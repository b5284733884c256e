-- ===== src/Tests/Callers.antt =====
-- Two connections that wait, an application that takes one stream, and an echo server.
use cpp_readline.Common.{
  ℕ, zero, suc, ◌+◌, none, some, Bool, true, false, inl, ◌≤◌, ◌<◌, ◌≡◌, refl, Result, ok, arith,
}
use cpp_readline.Sys.{after_socket}
use cpp_readline.Epoll.{Env}
use cpp_readline.Tcp.Accept.{Application}
use cpp_readline.Tcp.Accept.Drain.{QueueLaws}
use cpp_readline.Tcp.Accept.Count.{AcceptLaws}
use cpp_readline.Tests.Fixture.{Net, net, net_fds, take_caller, fresh_socket}

take_caller-none :
    (k : Net) (n : ℕ)
    → k.callers ≡ n
    → (take_caller k n).0 ≡ none
    → (take_caller k n).1.callers ≤ k.callers
take_caller-none k zero c e = omega arith
take_caller-none k (suc n) c e = omega arith

take_caller-some :
    (k : Net) (n new : ℕ)
    → k.callers ≡ n
    → (take_caller k n).0 ≡ some new
    → (take_caller k n).1.callers < k.callers
take_caller-some k zero new c e = cc
take_caller-some k (suc n) new c e = omega arith

abbrev net_queue : QueueLaws (net true)
net_queue = record {
  waiting = λ k. k.callers;
  waiting-ctl = λ k op fd ev. omega arith;
  waiting-close = λ k fd. omega arith;
  waiting-setsockopt = λ k fd opt. omega arith;
  waiting-none = λ k fd. take_caller-none k k.callers refl;
  waiting-some = λ k fd new. take_caller-some k k.callers new refl;
}

take_caller-held :
    (k : Net) (n : ℕ) → (take_caller k n).1.held ≡ after_socket (take_caller k n).0 k.held
take_caller-held k zero = refl
take_caller-held k (suc n) = refl

abbrev net_accepts : AcceptLaws (net true) (net_fds true)
net_accepts = record {
  held-accept = λ k fd. take_caller-held k k.callers;
  zero_or_minus_one = λ k fd opt. inl refl;
}

-- an application that keeps one stream, and counts what it keeps
abbrev keep_one : ℕ → Env (net true) → Result (Bool × ℕ × Env (net true))
keep_one zero env = ok (true, 1, env)
keep_one (suc n) env = ok (false, suc n, env)

abbrev taker : Application (net true) ℕ
taker = record { on_create = λ fd. ok fresh_socket; on_accept = λ s n env. keep_one n env }

-- three more connections come in
abbrev arrive : Net → Net
arrive k = record k { callers = 3 + k.callers }
