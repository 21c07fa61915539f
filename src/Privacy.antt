-- ===== src/Privacy.antt =====
-- src/mr_hide/privacy: detection results, normalization, mapping tables, and the reversible
-- transformation of text.
pub mod Unicode
pub mod Models
pub mod Overlap
pub mod Normalization
pub mod Scoring
pub mod Mapping
