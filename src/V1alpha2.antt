-- ===== src/V1alpha2.antt =====
-- pkg/api/v1alpha2: the handlers of one API version.
pub mod Polr
pub mod Cpolr
pub mod Table
pub mod Install
