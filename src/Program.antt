-- ===== src/Program.antt =====
-- lib.rs: the instructions of the program and their dispatch to the handlers.
pub mod Genuine
pub mod Reads
pub mod Preserve
pub mod Fresh
pub mod Soundness
pub mod Reach
pub mod Ballots
pub mod Authorship
pub mod Effects
pub mod Administration
pub mod Liveness
pub mod Earned
pub mod Closing
use iam_governance_plugin.Base.{ℕ}
use iam_governance_plugin.Base.Int.{ℤ}
use iam_governance_plugin.Errors.{Result}
use iam_governance_plugin.Solana.{Pubkey, Ledger, Clock}
use iam_governance_plugin.Framework.{Framework}
use iam_governance_plugin.Instructions.CreateRegistrar
use iam_governance_plugin.Instructions.CreateRegistrar.{CreateRegistrar}
use iam_governance_plugin.Instructions.UpdateRegistrar
use iam_governance_plugin.Instructions.UpdateRegistrar.{UpdateRegistrar}
use iam_governance_plugin.Instructions.CloseRegistrar
use iam_governance_plugin.Instructions.CloseRegistrar.{CloseRegistrar}
use iam_governance_plugin.Instructions.CreateVoterWeightRecord
use iam_governance_plugin.Instructions.CreateVoterWeightRecord.{CreateVoterWeightRecord}
use iam_governance_plugin.Instructions.UpdateVoterWeightRecord
use iam_governance_plugin.Instructions.UpdateVoterWeightRecord.{UpdateVoterWeightRecord}
use iam_governance_plugin.Instructions.CloseVoterWeightRecord
use iam_governance_plugin.Instructions.CloseVoterWeightRecord.{CloseVoterWeightRecord}
use iam_governance_plugin.Instructions.CreateMaxVoterWeightRecord
use iam_governance_plugin.Instructions.CreateMaxVoterWeightRecord.{CreateMaxVoterWeightRecord}
use iam_governance_plugin.Instructions.UpdateMaxVoterWeightRecord
use iam_governance_plugin.Instructions.UpdateMaxVoterWeightRecord.{UpdateMaxVoterWeightRecord}

-- An instruction: the accounts that it is given and its arguments.
pub data Instruction : Type 0 where
  create_registrar :
      CreateRegistrar → (min_trust_score : ℕ) → (max_verification_age : ℤ) → Instruction
  update_registrar :
      UpdateRegistrar → (min_trust_score : ℕ) → (max_verification_age : ℤ) → Instruction
  create_voter_weight_record :
      CreateVoterWeightRecord → (governing_token_owner : Pubkey) → Instruction
  update_voter_weight_record : UpdateVoterWeightRecord → Instruction
  close_registrar : CloseRegistrar → Instruction
  close_voter_weight_record : CloseVoterWeightRecord → Instruction
  create_max_voter_weight_record : CreateMaxVoterWeightRecord → Instruction
  update_max_voter_weight_record : UpdateMaxVoterWeightRecord → (max_voter_weight : ℕ) → Instruction

-- The entry points. An error leaves the ledger as it was.
unfoldable pub execute : Framework → Result Clock → Instruction → Ledger → Result Ledger
execute fw clock (create_registrar ctx floor window) l = CreateRegistrar.run fw ctx floor window l
execute fw clock (update_registrar ctx floor window) l = UpdateRegistrar.run fw ctx floor window l
execute fw clock (create_voter_weight_record ctx token_owner) l =
    CreateVoterWeightRecord.run fw ctx token_owner l
execute fw clock (update_voter_weight_record ctx) l = UpdateVoterWeightRecord.run fw ctx clock l
execute fw clock (close_registrar ctx) l = CloseRegistrar.run fw ctx l
execute fw clock (close_voter_weight_record ctx) l = CloseVoterWeightRecord.run fw ctx l
execute fw clock (create_max_voter_weight_record ctx) l = CreateMaxVoterWeightRecord.run fw ctx l
execute fw clock (update_max_voter_weight_record ctx weight) l =
    UpdateMaxVoterWeightRecord.run fw ctx weight l
