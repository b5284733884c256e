-- ===== src/Tests.antt =====
-- Runs on concrete data, and the theorems at inputs that meet their hypotheses.
mod Fixture
mod Buffer
mod Streams
mod Sockets
mod Shells
mod Mails
mod Callers
mod Services
mod Programs
mod Wires
mod Starts
mod Ticks
mod Broken
mod Completing
mod Mains
