-- ===== src/Tests.antt =====
-- The theorems at concrete inputs.
mod Checks
mod Conns
mod Frontend
mod Backend
mod Cookies
mod Reload
mod Exchange
mod Program
