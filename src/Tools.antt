-- ===== src/Tools.antt =====
-- The tools on the dataset (tools/): the box editor, the final labels, the clean-up, the split, the
-- suppression of proposals and the review queue.
pub mod Labels
pub mod BoxEditor
pub mod LabelCheck
pub mod FinalLabels
pub mod CleanUp
pub mod AutoLabel
pub mod Split
pub mod Review
