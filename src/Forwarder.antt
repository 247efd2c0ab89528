-- ===== src/Forwarder.antt =====
-- internal/forwarder: the bounded queue of tasks with its workers, and what is sent.
pub mod Queue
