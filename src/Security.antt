-- ===== src/Security.antt =====
-- Authority: which tools and capabilities a step may use, and what an envelope approves.
pub mod Capabilities
pub mod Envelope
pub mod Authority
pub mod Policy
pub mod Freezing
