-- ===== src/Tests.antt =====
-- Runs of the program on concrete inputs.
pub mod Memory
mod FamilyWitnesses
mod AuthRuns
mod Worlds
mod SessionWitnesses
mod AccountWitnesses
mod OtherWitnesses
mod LoginWitnesses
mod SchemaWitnesses
mod EdgeWitnesses
mod MainRuns
