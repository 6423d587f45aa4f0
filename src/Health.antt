-- ===== src/Health.antt =====
-- src/health.py: marks of outcomes, the choice of the models to probe, and a batch of probes.
pub mod Marks
pub mod Probes
pub mod Batch
pub mod Checks
