-- ===== src/Control.antt =====
-- src/control: the commands that a client sends, and their answers.
pub mod Json
pub mod Rpc
pub mod Client
pub mod Command
pub mod Format
pub mod Execute
pub mod Run
pub mod Listen
pub mod Files
