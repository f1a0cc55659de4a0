-- ===== src/Instructions.antt =====
-- The instructions, programs/entros-voter-weight/src/instructions/: one module for each file.
pub mod CreateRegistrar
pub mod UpdateRegistrar
pub mod CloseRegistrar
pub mod CreateVoterWeightRecord
pub mod UpdateVoterWeightRecord
pub mod CloseVoterWeightRecord
pub mod CreateMaxVoterWeightRecord
pub mod UpdateMaxVoterWeightRecord
