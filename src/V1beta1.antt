-- ===== src/V1beta1.antt =====
-- pkg/api/v1beta1: the handlers of one API version.
pub mod Polr
pub mod Cpolr
pub mod Table
pub mod Install
