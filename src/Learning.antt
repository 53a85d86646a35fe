-- ===== src/Learning.antt =====
-- src/acp/ml: what the conformance monitor uses of it when it serves. The trained models and the
-- statistics of numpy are interfaces; training is left out.
pub mod Baselines
pub mod Features
pub mod Predictor
pub mod Answers
mod Tests
