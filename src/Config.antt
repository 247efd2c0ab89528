-- ===== src/Config.antt =====
-- internal/config: the stores for rules, sources and forwarding, and the environment.
pub mod Env
pub mod Store
pub mod Rules
pub mod Sources
pub mod Forwarding
