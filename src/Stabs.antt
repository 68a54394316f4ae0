-- ===== src/Stabs.antt =====
-- host/stabslib.py: the debug information in the STABS format.
pub mod Types
pub mod Text
pub mod Nodes
pub mod Table
pub mod DataDict
pub mod Builder
pub mod Program
pub mod Ranges
pub mod Rising
pub mod OneFunction
pub mod Functions
pub mod Scopes
