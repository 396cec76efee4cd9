-- ===== src/Release.antt =====
-- pkg/releaseinfo: the contents of a release image.
pub mod Texts
pub mod Images
pub mod Provider
pub mod Labels
pub mod Versions
