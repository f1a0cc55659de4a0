-- ===== src/Framework/Laws.antt =====
-- What the program relies on of the code outside the repository, as documented there.
use iam_governance_plugin.Base.{
  ℕ, ◌+◌, ◌≡◌, ◌≢◌, Option, none, some, [], ◌++◌, length, take, replicate,
}
use iam_governance_plugin.Base.Int.{pos}
use iam_governance_plugin.Base.Bytes.{Bytes}
use iam_governance_plugin.Errors.{ok}
use iam_governance_plugin.Solana.{Pubkey, Ledger}
use iam_governance_plugin.State.{
  id, Registrar, RegistrarInRange, registrar_len, VoterWeightRecord, VoterInRange,
  voter_weight_record_space, MaxVoterWeightRecord, MaxInRange, max_voter_weight_record_space,
}
use iam_governance_plugin.Framework.{Framework}

abbrev pub zero_key : Pubkey
zero_key = record { bytes = replicate 32 0 }

-- What an account of zeros reads as.
abbrev pub zero_registrar : Registrar
zero_registrar = record {
  governance_program_id = zero_key;
  realm = zero_key;
  governing_token_mint = zero_key;
  min_trust_score = 0;
  max_verification_age = pos 0;
  reserved = replicate 64 0;
}

abbrev pub zero_voter_weight_record : VoterWeightRecord
zero_voter_weight_record = record {
  account_discriminator = replicate 8 0;
  realm = zero_key;
  governing_token_mint = zero_key;
  governing_token_owner = zero_key;
  voter_weight = 0;
  voter_weight_expiry = none;
  weight_action = none;
  weight_action_target = none;
  reserved = replicate 8 0;
}

abbrev pub zero_max_voter_weight_record : MaxVoterWeightRecord
zero_max_voter_weight_record = record {
  account_discriminator = replicate 8 0;
  realm = zero_key;
  governing_token_mint = zero_key;
  max_voter_weight = 0;
  max_voter_weight_expiry = none;
  reserved = replicate 8 0;
}

-- Borsh writes an option as a tag byte, with the value behind it where there is one.
abbrev pub option_size {ℓ} : {A : Type ℓ} → ℕ → Option A → ℕ
option_size n none = 1
option_size n (some _) = 1 + n

abbrev pub voter_size : VoterWeightRecord → ℕ
voter_size v =
    8
    + 32
    + 32
    + 32
    + 8
    + option_size 8 v.voter_weight_expiry
    + option_size 1 v.weight_action
    + option_size 32 v.weight_action_target
    + 8

abbrev pub max_size : MaxVoterWeightRecord → ℕ
max_size m = 8 + 32 + 32 + 8 + option_size 8 m.max_voter_weight_expiry + 8

-- The system program and the closing of an account.
pub record AccountLaws (fw : Framework) : Type 0 where
  pub system_program_ne_id : fw.system_program ≢ id
  -- an address in use is refused
  pub create_account_fresh :
      (payer new : Pubkey) (space : ℕ) (owner : Pubkey) (l l' : Ledger)
      → fw.create_account payer new space owner l ≡ ok l'
      → ((l new).owner ≡ fw.system_program) × ((l new).bytes ≡ [])
  pub create_account_new :
      (payer new : Pubkey) (space : ℕ) (owner : Pubkey) (l l' : Ledger)
      → fw.create_account payer new space owner l ≡ ok l'
      → ((l' new).owner ≡ owner) × ((l' new).bytes ≡ replicate space 0)
  -- of every other account at most the lamports change
  pub create_account_others :
      (payer new : Pubkey) (space : ℕ) (owner : Pubkey) (l l' : Ledger) (k : Pubkey)
      → fw.create_account payer new space owner l ≡ ok l'
      → new ≢ k
      → ((l' k).owner ≡ (l k).owner) × ((l' k).bytes ≡ (l k).bytes)
  pub close_account :
      (account destination : Pubkey) (l l' : Ledger)
      → fw.close account destination l ≡ ok l'
      → account ≢ destination
      → ((l' account).owner ≡ fw.system_program)
        × ((l' account).bytes ≡ [])
        × ((l' account).lamports ≡ 0)
        × ((l' destination).lamports ≡ (l destination).lamports + (l account).lamports)
  pub close_others :
      (account destination : Pubkey) (l l' : Ledger) (k : Pubkey)
      → fw.close account destination l ≡ ok l'
      → account ≢ k
      → ((l' k).owner ≡ (l k).owner) × ((l' k).bytes ≡ (l k).bytes)

-- The codecs: a written value reads back whatever follows it, a zeroed account reads as zeros, the
-- discriminator comes first, and the sizes are those of the fields.
pub record CodecLaws (fw : Framework) : Type 0 where
  pub registrar_round_trip :
      (r : Registrar) (rest : Bytes)
      → RegistrarInRange r
      → fw.registrar.deserialize (fw.registrar.serialize r ++ rest) ≡ some r
  pub registrar_zero : fw.registrar_unchecked (replicate registrar_len 0) ≡ some zero_registrar
  pub registrar_size :
      (r : Registrar) → RegistrarInRange r → length (fw.registrar.serialize r) ≡ registrar_len
  pub registrar_tag :
      (r : Registrar) → take 8 (fw.registrar.serialize r) ≡ fw.registrar_discriminator
  pub voter_round_trip :
      (v : VoterWeightRecord) (rest : Bytes)
      → VoterInRange v
      → fw.voter_weight_record.deserialize (fw.voter_weight_record.serialize v ++ rest) ≡ some v
  pub voter_zero :
      fw.voter_weight_record.deserialize (replicate voter_weight_record_space 0)
      ≡ some zero_voter_weight_record
  pub voter_size :
      (v : VoterWeightRecord)
      → VoterInRange v
      → length (fw.voter_weight_record.serialize v) ≡ voter_size v
  pub voter_tag :
      (v : VoterWeightRecord)
      → VoterInRange v
      → take 8 (fw.voter_weight_record.serialize v) ≡ v.account_discriminator
  pub max_round_trip :
      (m : MaxVoterWeightRecord) (rest : Bytes)
      → MaxInRange m
      → fw.max_voter_weight_record.deserialize (fw.max_voter_weight_record.serialize m ++ rest)
        ≡ some m
  pub max_zero :
      fw.max_voter_weight_record.deserialize (replicate max_voter_weight_record_space 0)
      ≡ some zero_max_voter_weight_record
  pub max_size :
      (m : MaxVoterWeightRecord)
      → MaxInRange m
      → length (fw.max_voter_weight_record.serialize m) ≡ max_size m
  pub max_tag :
      (m : MaxVoterWeightRecord)
      → MaxInRange m
      → take 8 (fw.max_voter_weight_record.serialize m) ≡ m.account_discriminator
  -- the derived read of a registrar refuses another discriminator
  pub registrar_checked :
      (bytes : Bytes) (r : Registrar)
      → fw.registrar.deserialize bytes ≡ some r
      → take 8 bytes ≡ fw.registrar_discriminator
  -- the three discriminators are eight bytes each, not all zero, and differ
  pub registrar_discriminator_size : length fw.registrar_discriminator ≡ 8
  pub voter_discriminator_size : length fw.voter_weight_record_discriminator ≡ 8
  pub max_discriminator_size : length fw.max_voter_weight_record_discriminator ≡ 8
  pub registrar_ne_voter : fw.registrar_discriminator ≢ fw.voter_weight_record_discriminator
  pub registrar_ne_max : fw.registrar_discriminator ≢ fw.max_voter_weight_record_discriminator
  pub voter_ne_max : fw.voter_weight_record_discriminator ≢ fw.max_voter_weight_record_discriminator
  pub registrar_ne_zero : fw.registrar_discriminator ≢ replicate 8 0
  pub voter_ne_zero : fw.voter_weight_record_discriminator ≢ replicate 8 0
  pub max_ne_zero : fw.max_voter_weight_record_discriminator ≢ replicate 8 0
