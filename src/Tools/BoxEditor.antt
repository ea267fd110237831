-- ===== src/Tools/BoxEditor.antt =====
-- The box editor, tools/correct_mouse_boxes.py.
pub mod Boxes
pub mod Editor
pub mod Reading
pub mod Bounds
pub mod Run
pub mod Undoing
pub mod Removing
pub mod Session
pub mod Completion
