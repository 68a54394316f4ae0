-- ===== src/Tests.antt =====
-- Runs of the model at small inputs.
mod Line
mod Commands
mod Executable
mod Program
mod View
mod Interface
mod Screen
mod Session
mod Functions
mod Scopes
mod Running
