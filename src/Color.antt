-- ===== src/Color.antt =====
-- internal/color: hex codes and what is derived from them.
pub mod Hex
pub mod Floats
pub mod Oklab
pub mod Gamut
pub mod Hsl
pub mod Derive
pub mod Harmonies
pub mod Contrast
pub mod Info
pub mod SortKey
