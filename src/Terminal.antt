-- ===== src/Terminal.antt =====
-- kernel/src/tty: the input of a terminal and its characters.
pub mod Keyboard
