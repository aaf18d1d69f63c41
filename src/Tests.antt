-- ===== src/Tests.antt =====
-- Concrete runs of the model, and each theorem applied where its hypotheses hold.
mod Patching
mod Buffers
mod Sums
mod Strings
mod Signatures
mod Tables
mod Matching
mod Jobs
