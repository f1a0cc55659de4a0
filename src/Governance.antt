-- ===== src/Governance.antt =====
-- governance.rs: the macros that wrap the two record types of the addin API. `Voter` and `Max` hold
-- the two expansions; `fill` is a serialiser's write into the account's data.
pub mod Voter
pub mod Max
