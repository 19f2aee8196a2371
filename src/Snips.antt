-- ===== src/Snips.antt =====
-- SNIPS proofs (code/bee-snips-sup/pkg/snips).
pub mod Expected
pub mod Proof
pub mod Protocol
pub mod Radius
pub mod Upload
pub mod Sending
pub mod Watch
