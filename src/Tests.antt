-- ===== src/Tests.antt =====
-- Concrete instances of the interfaces, and the theorems at concrete inputs.
pub mod Instances
mod Context
mod Evaluation
mod Examples
mod Inserting
mod Numbers
mod Parameters
mod Pool
mod Polling
mod Running
