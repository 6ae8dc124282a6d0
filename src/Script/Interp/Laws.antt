-- ===== src/Script/Interp/Laws.antt =====
-- Proofs about `eval_script`.
pub mod Ends
pub mod Checks
pub mod Keeps
pub mod Loop
pub mod Multi
pub mod Skipped
pub mod Truth
pub mod Minimal
