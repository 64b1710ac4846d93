-- ===== src/Tests.antt =====
-- Runs of the model on concrete inputs.
mod Toy
mod Spans
mod Envelopes
mod Certs
mod Grants
mod Rules
mod Frames
mod Chains
mod Handshakes
mod Commands
mod Verifications
mod Live
