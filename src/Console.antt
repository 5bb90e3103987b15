-- ===== src/Console.antt =====
-- app_console/src: the console application.
pub mod Keymap
pub mod Text
pub mod Script
pub mod Shell
pub mod Inputs
pub mod Window
pub mod Frame
mod Tests
mod ShellTests
