-- ===== src/Tests.antt =====
-- A concrete framework that meets the documented laws, sample ledgers, runs, and the instances of
-- the theorems at them.
mod Borsh
mod RegistrarCodec
mod VoterCodec
mod MaxCodec
mod World
mod Sample
mod History
mod Quorum
mod Facts
mod Confusion
mod ProgramWitnesses
mod AdministrationWitnesses
mod InstructionWitnesses
mod PartWitnesses
