-- ===== src/Utils.antt =====
-- pkg/utils: histogram buckets (monitoring.go) and environment defaults (utils.go, consts.go).
pub mod Float64
pub mod Buckets
pub mod Env
