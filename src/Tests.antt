-- ===== src/Tests.antt =====
-- A server, a platform and a cryptography to run the controllers on, runs on them, and the theorems
-- at concrete arguments.
mod Fixtures
mod Runs
mod Secrets
mod Server
mod Values
mod Labels
mod Versions
mod Copies
mod Command
