-- ===== src/BackendServer/Life.antt =====
-- A backend server under any interleaving of requests, worker, reloads and traffic.
pub mod Tally
pub mod Owned
pub mod Reach
