-- ===== src/Stream.antt =====
-- src/xma_socket.cpp: `StreamSocket`, its writing side and its reading side.
pub mod Tx
pub mod Rx
pub mod Sizes
