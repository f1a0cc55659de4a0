-- ===== src/Instructions/CreateVoterWeightRecord/Outcome.antt =====
-- What a successful creation of a voter weight record has checked and done.
use iam_governance_plugin.Base.{◌≡◌, none, some, true}
use iam_governance_plugin.Errors.{anchor, account_did_not_serialize, ok, >>=-eq-ok, require-eq-ok}
use iam_governance_plugin.Solana.{Pubkey, key_eq→eq, Ledger}
use iam_governance_plugin.State.{id, Registrar, VoterWeightRecord, voter_weight_record_space}
use iam_governance_plugin.Framework.{Framework}
use iam_governance_plugin.Governance.Voter
use iam_governance_plugin.Seeds.{voter_weight_record_seeds}
use iam_governance_plugin.Anchor.{registrar_try_deserialize}
use iam_governance_plugin.Anchor.Laws.{account-IsLoaded, IsCreated, init-IsCreated}
use iam_governance_plugin.Anchor.Writes.{IsWritten, exit-IsWritten}
use iam_governance_plugin.Anchor.Registrars.{IsRegistrar}
use iam_governance_plugin.Instructions.CreateVoterWeightRecord.{
  CreateVoterWeightRecord, accounts, create_voter_weight_record, run,
}

-- The accounts struct accepts these accounts: the record is created, which leads to `l'`.
pub record AreAccepted (fw : Framework) (ctx : CreateVoterWeightRecord) (token_owner : Pubkey)
    (l : Ledger) (r : Registrar) (fresh : VoterWeightRecord) (l' : Ledger) : Type 0 where
  pub registrar : IsRegistrar fw ctx.registrar l r
  pub signed : ctx.governing_token_owner_signer.is_signer ≡ true
  pub payer_signed : ctx.payer.is_signer ≡ true
  pub system_program : ctx.system_program.key ≡ fw.system_program
  pub created :
      IsCreated fw Voter.owner
        (Voter.try_deserialize_unchecked fw)
        (voter_weight_record_seeds r.realm r.governing_token_mint token_owner)
        voter_weight_record_space
        ctx.payer
        ctx.voter_weight_record
        l
        fresh
        l'
  pub payer_writable : ctx.payer.is_writable ≡ true

accounts-AreAccepted :
    (fw : Framework) (ctx : CreateVoterWeightRecord) (token_owner : Pubkey) (l : Ledger)
    (made : Registrar × VoterWeightRecord × Ledger)
    → accounts fw ctx token_owner l ≡ ok made
    → AreAccepted fw ctx token_owner l made.0 made.1 made.2
unfolding accounts
accounts-AreAccepted fw ctx token_owner l made h =
    let (r, loaded, h₁) = >>=-eq-ok _ _ h in
    let (signed, h₂) = require-eq-ok _ _ _ h₁ in
    let (payer_signed, h₃) = require-eq-ok _ _ _ h₂ in
    let (system_program, h₄) = require-eq-ok _ _ _ h₃ in
    let (m, created, h₅) = >>=-eq-ok _ _ h₄ in
    let (address, h₆) = require-eq-ok _ _ _ h₅ in
    let (payer_writable, h₇) = require-eq-ok _ _ _ h₆ in
    let same : (r, m.0, m.1) ≡ made = cc h₇ in
    rw (← same) (record {
      registrar = record {
        loaded = account-IsLoaded fw id (registrar_try_deserialize fw) ctx.registrar l r loaded;
        address = key_eq→eq _ _ address;
      };
      signed = signed;
      payer_signed = payer_signed;
      system_program = key_eq→eq _ _ system_program;
      created =
          init-IsCreated fw Voter.owner (Voter.try_deserialize_unchecked fw) _ _ _ _ l m created;
      payer_writable = payer_writable;
    })

module _ (fw : Framework) (ctx : CreateVoterWeightRecord) (token_owner : Pubkey) where
  -- The record that the handler leaves.
  abbrev pub changed : Registrar → VoterWeightRecord → VoterWeightRecord
  changed r v = record v {
    account_discriminator = fw.voter_weight_record_discriminator;
    realm = r.realm;
    governing_token_mint = r.governing_token_mint;
    governing_token_owner = token_owner;
    voter_weight = 0;
    voter_weight_expiry = some 0;
    weight_action = none;
    weight_action_target = none;
  }

  create_voter_weight_record_inversion :
      (r : Registrar) (v v' : VoterWeightRecord)
      → create_voter_weight_record fw ctx token_owner r v ≡ ok v'
      → (ctx.governing_token_owner_signer.key ≡ token_owner) × (changed r v ≡ v')
  unfolding create_voter_weight_record Voter.discriminator
  create_voter_weight_record_inversion r v v' h =
      let (mine, h₁) = require-eq-ok _ _ _ h in (key_eq→eq _ _ mine, cc h₁)

  pub record Outcome (l l' : Ledger) : Type 0 where
    pub registrar : Registrar
    pub fresh : VoterWeightRecord
    pub created : Ledger
    pub accepted : AreAccepted fw ctx token_owner l registrar fresh created
    pub signer_is_owner : ctx.governing_token_owner_signer.key ≡ token_owner
    pub written :
        IsWritten
          (fw.voter_weight_record.serialize (changed registrar fresh))
          ctx.voter_weight_record.key
          created
          l'

  pub run-Outcome : (l l' : Ledger) → run fw ctx token_owner l ≡ ok l' → Outcome l l'
  unfolding run
  run-Outcome l l' h =
      let (m, accepted, h₁) = >>=-eq-ok (accounts fw ctx token_owner l) _ h in
      let (v', handled, h₂) =
        >>=-eq-ok (create_voter_weight_record fw ctx token_owner m.0 m.1) _ h₁ in
      let (mine, same) = create_voter_weight_record_inversion m.0 m.1 v' handled in
      record {
        registrar = m.0;
        fresh = m.1;
        created = m.2;
        accepted = accounts-AreAccepted fw ctx token_owner l m accepted;
        signer_is_owner = mine;
        written = rw same (
            exit-IsWritten (fw.voter_weight_record.serialize v') (anchor account_did_not_serialize)
              ctx.voter_weight_record m.2 l' h₂);
      }
