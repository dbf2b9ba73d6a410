-- ===== src/ClientLogin.antt =====
-- The login of a client (cli_common/login_apollo.cpp).
mod Session
mod Stored
mod Accepted
mod Saved
mod Tests
mod Hosts
mod HostList
mod HostTests
