-- ===== src/Echo/Talk/Whole.antt =====
-- example/server_service.hpp: how a whole sequence of events of an echo connection ends.
use cpp_readline.Sys.{Sys}
use cpp_readline.Socket.{Socket}
