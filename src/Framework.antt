-- ===== src/Framework.antt =====
-- What the program takes from outside the repository, as one record of functions: address
-- derivation and the system program of Solana, the closing of an account by Anchor, the realm lookup
-- of spl-governance, and the Borsh codecs and discriminators of the three account types.
-- `Framework.Laws` states what is relied on.
pub mod Laws
pub mod Space
use iam_governance_plugin.Base.{ℕ, Option, List}
use iam_governance_plugin.Base.Bytes.{Bytes}
use iam_governance_plugin.Errors.{Result}
use iam_governance_plugin.Solana.{Pubkey, Account, Ledger}
use iam_governance_plugin.State.{Registrar, VoterWeightRecord, MaxVoterWeightRecord}

-- The one field of spl-governance's realm account that the program reads.
pub record RealmData : Type 0 where
  pub authority : Option Pubkey

-- A serialiser, and a deserialiser that reads a prefix of its input.
pub record Borsh (A : Type 0) : Type 0 where
  pub serialize : A → Bytes
  pub deserialize : Bytes → Option A

pub record Framework : Type 0 where
  -- `Pubkey::find_program_address`: the derived address and its bump
  pub find_program_address : List Bytes → Pubkey → Pubkey × ℕ
  pub system_program : Pubkey
  -- what `init` calls: payer, new account, space and owner
  pub create_account : Pubkey → Pubkey → ℕ → Pubkey → Ledger → Result Ledger
  -- what `close = destination` does on exit: the account and the destination
  pub close : Pubkey → Pubkey → Ledger → Result Ledger
  -- program, the realm's address and account, mint
  pub get_realm_data_for_governing_token_mint :
      Pubkey → Pubkey → Account → Pubkey → Result RealmData
  -- what `#[account]` derives for `Registrar`: the codec with the discriminator, and the read that
  -- skips it
  pub registrar : Borsh Registrar
  pub registrar_unchecked : Bytes → Option Registrar
  -- `borsh_1` for the two types of the addin API
  pub voter_weight_record : Borsh VoterWeightRecord
  pub max_voter_weight_record : Borsh MaxVoterWeightRecord
  pub registrar_discriminator : Bytes
  pub voter_weight_record_discriminator : Bytes
  pub max_voter_weight_record_discriminator : Bytes
