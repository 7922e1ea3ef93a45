-- ===== src/Segmentation.antt =====
-- Deterministic segmentation of a source: src/knowledgeflow_curation/segmentation.py.
pub mod Utf8
pub mod Lines
pub mod Markdown
pub mod Choose
pub mod Ranges
pub mod Build
pub mod Tests
