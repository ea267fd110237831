-- ===== src/Tools/CleanUp.antt =====
-- The clean-up of positives, tools/cleanup_mouse_positives.py.
pub mod UnionFind
pub mod Labelling
pub mod Grouping
pub mod Scan
pub mod Duplicates
