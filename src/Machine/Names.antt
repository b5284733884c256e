-- ===== src/Machine/Names.antt =====
-- src/xma_socket.cpp: what `StoreAddrInfo` leaves alone.
use cpp_readline.Common.{ℕ, ◌≡◌, refl, Option, none, some}
use Prim.Native.String.{String}
use cpp_readline.Sys.{Sys}
use cpp_readline.Epoll.{Env}
use cpp_readline.Socket.{Socket}
use cpp_readline.Machine.{store_own, store_peer, store_names, store_addr_info}

store_names-listener :
    (s : Socket) (own peer : Option (String × ℕ)) → (store_names s own peer).1.listener ≡ s.listener
unfolding store_names store_own store_peer
store_names-listener s none peer = refl
store_names-listener s (some own) none = refl
store_names-listener s (some own) (some peer) = refl

pub store_addr_info-listener :
    (sys : Sys) (s : Socket) (env : Env sys) → (store_addr_info sys s env).1.listener ≡ s.listener
unfolding store_addr_info
store_addr_info-listener sys s env = store_names-listener s _ _
