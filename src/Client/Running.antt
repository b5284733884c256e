-- ===== src/Client/Running.antt =====
-- client/client_service.cpp: a client that was connected, and so has set its timer, is stopped.
use cpp_readline.Common.{Bool, true, Result, ok}
use cpp_readline.Sys.{Sys}
use cpp_readline.Socket.{Socket}
use cpp_readline.Timer.{Timers}
use cpp_readline.Client.{Client}

-- the two steps of `OnConnected` after `Set`
abbrev linked_client : Client → Bool × Timers → Result (Client × Timers)
linked_client c r = ok (record c { linked = true }, r.1)

abbrev answered : Client × Timers → Result (Bool × Client × Timers)
answered r = ok (true, r.0, r.1)
