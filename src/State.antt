-- ===== src/State.antt =====
-- The program's state: programs/entros-voter-weight/src/state/registrar.rs, the record types that
-- state/mod.rs takes from the macros of governance.rs, and the program's address.
use iam_governance_plugin.Base.{ℕ, ◌+◌, ◌^◌, ◌<◌, ◌≡◌, Option, none, some, [], ◌∷◌, length}
use iam_governance_plugin.Base.Int.{ℤ, IsI64}
use iam_governance_plugin.Base.Bytes.{Bytes}
use iam_governance_plugin.Solana.{Pubkey, IsKey}

-- `declare_id!`: the bytes of 99nwXzcugse3x8kxE9v6mxZiq8T9gHDoznaaG6qcw534.
abbrev pub id : Pubkey
id = record {
  bytes =
      121 ∷ 30 ∷ 22 ∷ 49 ∷ 33 ∷ 25 ∷ 239 ∷ 206 ∷ 55 ∷ 74 ∷ 29 ∷ 169 ∷ 220 ∷ 143 ∷ 35 ∷ 72 ∷ 178
      ∷ 154 ∷ 151 ∷ 229 ∷ 232 ∷ 10 ∷ 99 ∷ 125 ∷ 149 ∷ 252 ∷ 226 ∷ 44 ∷ 185 ∷ 63 ∷ 132 ∷ 103 ∷ [];
}

pub record Registrar : Type 0 where
  pub governance_program_id : Pubkey
  pub realm : Pubkey
  pub governing_token_mint : Pubkey
  pub min_trust_score : ℕ
  pub max_verification_age : ℤ
  pub reserved : Bytes

-- `Registrar::LEN`
abbrev pub registrar_len : ℕ
registrar_len = 8 + 32 + 32 + 32 + 2 + 8 + 64

-- The wrapped record of the addin API. A weight action is an enumeration without data, kept as its
-- number; the program only ever writes none.
pub record VoterWeightRecord : Type 0 where
  pub account_discriminator : Bytes
  pub realm : Pubkey
  pub governing_token_mint : Pubkey
  pub governing_token_owner : Pubkey
  pub voter_weight : ℕ
  pub voter_weight_expiry : Option ℕ
  pub weight_action : Option ℕ
  pub weight_action_target : Option Pubkey
  pub reserved : Bytes

-- `VoterWeightRecord::get_space`
abbrev pub voter_weight_record_space : ℕ
voter_weight_record_space = 8 + 32 + 32 + 32 + 8 + 9 + 2 + 33 + 8

pub record MaxVoterWeightRecord : Type 0 where
  pub account_discriminator : Bytes
  pub realm : Pubkey
  pub governing_token_mint : Pubkey
  pub max_voter_weight : ℕ
  pub max_voter_weight_expiry : Option ℕ
  pub reserved : Bytes

-- `MaxVoterWeightRecord::get_space`
abbrev pub max_voter_weight_record_space : ℕ
max_voter_weight_record_space = 8 + 32 + 32 + 8 + 9 + 8

-- The ranges of the Rust types: `u16`, `u64`, `Pubkey`, `[u8; n]`, and options of them.
abbrev pub IsU16 : ℕ → Type 0
IsU16 n = n < 2 ^ 16

abbrev pub IsU64 : ℕ → Type 0
IsU64 n = n < 2 ^ 64

-- `VoterWeightAction` of the addin API has five variants, which Borsh writes as a byte.
abbrev pub IsAction : ℕ → Type 0
IsAction n = n < 5

abbrev pub Each {ℓ κ} : {A : Type ℓ} → (A → Type κ) → Option A → Type κ
Each P none = Unit
Each P (some a) = P a

pub record RegistrarInRange (r : Registrar) : Type 0 where
  pub governance_program_id : IsKey r.governance_program_id
  pub realm : IsKey r.realm
  pub governing_token_mint : IsKey r.governing_token_mint
  pub min_trust_score : IsU16 r.min_trust_score
  pub max_verification_age : IsI64 r.max_verification_age
  pub reserved : length r.reserved ≡ 64

pub record VoterInRange (v : VoterWeightRecord) : Type 0 where
  pub account_discriminator : length v.account_discriminator ≡ 8
  pub realm : IsKey v.realm
  pub governing_token_mint : IsKey v.governing_token_mint
  pub governing_token_owner : IsKey v.governing_token_owner
  pub voter_weight : IsU64 v.voter_weight
  pub voter_weight_expiry : Each IsU64 v.voter_weight_expiry
  pub weight_action : Each IsAction v.weight_action
  pub weight_action_target : Each IsKey v.weight_action_target
  pub reserved : length v.reserved ≡ 8

pub record MaxInRange (m : MaxVoterWeightRecord) : Type 0 where
  pub account_discriminator : length m.account_discriminator ≡ 8
  pub realm : IsKey m.realm
  pub governing_token_mint : IsKey m.governing_token_mint
  pub max_voter_weight : IsU64 m.max_voter_weight
  pub max_voter_weight_expiry : Each IsU64 m.max_voter_weight_expiry
  pub reserved : length m.reserved ≡ 8
