-- ===== src/Tcp/Release.antt =====
-- src/xma_socket.cpp: the destructor of a stream, `~StreamSocket`, with that of `EpollListener`, and
-- what it does to the descriptors of the process. The model starts behind `delete receiver_`: no state of
-- it shows the memory of a receiver, so the receiver is null or is deleted for the first time. The copy of a
-- connection that the echo server keeps shares its receiver with the connection, so where `OnSocketErr` has
-- deleted the connection itself, the copy has no model. An exception in a destructor ends the program; it is a
-- fault here as any other.
use cpp_readline.Common.{
  bind_assoc, some, true, arith, ℕ, zero, suc, ◌+◌, length, ◌≡◌, refl, none, false, ℤ, inc, List,
  [], ◌∷◌, Result, ok, fault, exception, ◌>>=◌,
}
use cpp_readline.Sys.{Sys, FdLaws}
use cpp_readline.Epoll.{EpollListener, Env, close, is_open}
use cpp_readline.Epoll.Laws.{CtlFails, NotRemoved, not_removed}
use cpp_readline.Socket.{Socket}
use cpp_readline.Tcp.{reset}
use cpp_readline.Tcp.Opening.{close-elim, holding}

module _ (sys : Sys) where
  -- behind `delete receiver_`: `Reset`, then the destructor of the listener
  unfoldable pub delete_stream : Socket → Env sys → Result (Env sys)
  delete_stream s env = do
    (t, env') ← reset sys s env
    (l, env'') ← close sys t.listener env'
    ok env''

  -- the destructor of a vector of streams
  unfoldable pub delete_streams : List Socket → Env sys → Result (Env sys)
  unfolding delete_stream
  delete_streams [] env = ok env
  delete_streams (s ∷ ss) env = let rest = delete_streams ss in delete_stream s env >>= rest

-- `n` more of the descriptors that are registered
unfoldable pub inc_by : ℕ → ℤ → ℤ
inc_by zero z = z
inc_by (suc n) z = inc (inc_by n z)

-- A socket with a descriptor that is registered.
pub data Holds (s : Socket) : Type 0 where
  holds : (fd : ℕ) → s.listener ≡ holding fd → Holds s

pub data AllHold : List Socket → Type 0 where
  all-nil : AllHold []
  all-cons : {s : Socket} {ss : List Socket} → Holds s → AllHold ss → AllHold (s ∷ ss)

module _ (sys : Sys) (laws : FdLaws sys) where
  open laws use {held, held-ctl, held-close}

  -- The process holds `n` descriptors, of which `z` are registered, or the call threw, and `Why`.
  pub data Released (Why : Type 0) (n : ℕ) (z : ℤ) : Result (Env sys) → Type 0 where
    released : (env : Env sys) → held env.kernel ≡ n → env.fds ≡ z → Released Why n z (ok env)
    threw : Why → Released Why n z (fault exception)

  -- the same release, of which another is the case where it throws
  pub Released-mono :
      {Why Why' : Type 0} {n : ℕ} {z : ℤ} {m : Result (Env sys)}
      → (Why → Why')
      → Released Why n z m
      → Released Why' n z m
  Released-mono f (released env more count) = released env more count
  Released-mono f (threw w) = threw (f w)

  -- what follows a release, at any property of results
  pub Released-elim :
      {B Why : Type 0} {n : ℕ} {z : ℤ} {m : Result (Env sys)} (Q : Result B → Type 0)
      (k : Env sys → Result B)
      → Released Why n z m
      → (Why → Q (fault exception))
      → ((env : Env sys) → held env.kernel ≡ n → env.fds ≡ z → Q (k env))
      → Q (m >>= k)
  Released-elim Q k (released env more count) gone next = next env more count
  Released-elim Q k (threw c) gone next = gone c

  -- A stream that has no descriptor is destroyed without a system call.
  pub delete_shut :
      (s : Socket) (env : Env sys)
      → is_open s.listener.fd ≡ false
      → delete_stream sys s env ≡ ok env
  unfolding delete_stream reset close
  delete_shut s env shut = rw (shut, shut) refl

  close_none :
      (l : EpollListener) (env : Env sys) → is_open l.fd ≡ false → close sys l env ≡ ok (l, env)
  unfolding close
  close_none l env shut = rw shut refl

  -- The destructor of a stream closes its descriptor.
  pub delete_stream-Released :
      (n : ℕ) (z : ℤ) (s : Socket) (env : Env sys)
      → Holds s
      → held env.kernel ≡ suc n
      → env.fds ≡ inc z
      → Released (NotRemoved sys env s.listener.fd) n z (delete_stream sys s env)
  unfolding delete_stream reset
  delete_stream-Released n z s env (holds fd e) one_more count =
      rw (e, bind_assoc (close sys (holding fd) env))
        (close-elim sys laws n z fd env (Released (NotRemoved sys env (some fd)) n z) _ one_more
          count threw
          (λ env' held' count'.
            rw (close_none (record { fd = none; attached = true }) env' refl)
              (released env' held' count')))

  -- The destructor of a vector of streams closes the descriptor of each.
  pub delete_streams-Released :
      (n : ℕ) (z : ℤ) (ss : List Socket) (env : Env sys)
      → AllHold ss
      → held env.kernel ≡ length ss + n
      → env.fds ≡ inc_by (length ss) z
      → Released (CtlFails sys) n z (delete_streams sys ss env)
  unfolding delete_streams inc_by
  delete_streams-Released n z [] env all-nil more count = released env (omega arith) count
  delete_streams-Released n z (s ∷ ss) env (all-cons h hs) more count =
      Released-elim (Released (CtlFails sys) n z) _
        (delete_stream-Released (length ss + n) (inc_by (length ss) z) s env h (omega arith) count)
        (λ bad. threw (not_removed _ _ bad))
        (λ env' more' count'. delete_streams-Released n z ss env' hs more' count')
