-- ===== src/V1alpha1.antt =====
-- pkg/api/v1alpha1: the handlers of one API version.
pub mod Polr
pub mod Cpolr
pub mod Table
pub mod Install
