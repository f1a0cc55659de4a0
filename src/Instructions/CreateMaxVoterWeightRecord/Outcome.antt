-- ===== src/Instructions/CreateMaxVoterWeightRecord/Outcome.antt =====
-- What a successful creation of a max voter weight record has checked and done.
use iam_governance_plugin.Base.{◌≡◌, some, true}
use iam_governance_plugin.Errors.{anchor, account_did_not_serialize, ok, >>=-eq-ok, require-eq-ok}
use iam_governance_plugin.Solana.{key_eq→eq, Ledger}
use iam_governance_plugin.State.{id, Registrar, MaxVoterWeightRecord, max_voter_weight_record_space}
use iam_governance_plugin.Framework.{Framework}
use iam_governance_plugin.Governance.Max
use iam_governance_plugin.Seeds.{max_voter_weight_record_seeds}
use iam_governance_plugin.Anchor.{registrar_try_deserialize}
use iam_governance_plugin.Anchor.Laws.{account-IsLoaded, IsCreated, init-IsCreated}
use iam_governance_plugin.Anchor.Writes.{IsWritten, exit-IsWritten}
use iam_governance_plugin.Anchor.Registrars.{IsRegistrar}
use iam_governance_plugin.Authority.{require_realm_authority}
use iam_governance_plugin.Authority.Laws.{HasAuthority, require_realm_authority_iff}
use iam_governance_plugin.Instructions.CreateMaxVoterWeightRecord.{
  CreateMaxVoterWeightRecord, accounts, create_max_voter_weight_record, run,
}

-- The accounts struct accepts these accounts: the record is created, which leads to `l'`.
pub record AreAccepted (fw : Framework) (ctx : CreateMaxVoterWeightRecord) (l : Ledger)
    (r : Registrar) (fresh : MaxVoterWeightRecord) (l' : Ledger) : Type 0 where
  pub registrar : IsRegistrar fw ctx.registrar l r
  pub signed : ctx.realm_authority.is_signer ≡ true
  pub payer_signed : ctx.payer.is_signer ≡ true
  pub system_program : ctx.system_program.key ≡ fw.system_program
  pub created :
      IsCreated fw Max.owner
        (Max.try_deserialize_unchecked fw)
        (max_voter_weight_record_seeds r.realm r.governing_token_mint)
        max_voter_weight_record_space
        ctx.payer
        ctx.max_voter_weight_record
        l
        fresh
        l'
  pub realm : ctx.realm.key ≡ r.realm
  pub payer_writable : ctx.payer.is_writable ≡ true

accounts-AreAccepted :
    (fw : Framework) (ctx : CreateMaxVoterWeightRecord) (l : Ledger)
    (made : Registrar × MaxVoterWeightRecord × Ledger)
    → accounts fw ctx l ≡ ok made
    → AreAccepted fw ctx l made.0 made.1 made.2
unfolding accounts
accounts-AreAccepted fw ctx l made h =
    let (r, loaded, h₁) = >>=-eq-ok _ _ h in
    let (signed, h₂) = require-eq-ok _ _ _ h₁ in
    let (payer_signed, h₃) = require-eq-ok _ _ _ h₂ in
    let (system_program, h₄) = require-eq-ok _ _ _ h₃ in
    let (m, created, h₅) = >>=-eq-ok _ _ h₄ in
    let (address, h₆) = require-eq-ok _ _ _ h₅ in
    let (realm, h₇) = require-eq-ok _ _ _ h₆ in
    let (payer_writable, h₈) = require-eq-ok _ _ _ h₇ in
    let same : (r, m.0, m.1) ≡ made = cc h₈ in
    rw (← same) (record {
      registrar = record {
        loaded = account-IsLoaded fw id (registrar_try_deserialize fw) ctx.registrar l r loaded;
        address = key_eq→eq _ _ address;
      };
      signed = signed;
      payer_signed = payer_signed;
      system_program = key_eq→eq _ _ system_program;
      created = init-IsCreated fw Max.owner (Max.try_deserialize_unchecked fw) _ _ _ _ l m created;
      realm = key_eq→eq _ _ realm;
      payer_writable = payer_writable;
    })

module _ (fw : Framework) (ctx : CreateMaxVoterWeightRecord) where
  -- The record that the handler leaves.
  abbrev pub changed : Registrar → MaxVoterWeightRecord → MaxVoterWeightRecord
  changed r m = record m {
    account_discriminator = fw.max_voter_weight_record_discriminator;
    realm = r.realm;
    governing_token_mint = r.governing_token_mint;
    max_voter_weight = 0;
    max_voter_weight_expiry = some 0;
  }

  create_max_voter_weight_record_inversion :
      (r : Registrar) (m m' : MaxVoterWeightRecord) (l : Ledger)
      → create_max_voter_weight_record fw ctx r m l ≡ ok m'
      → HasAuthority fw r.governance_program_id ctx.realm r.governing_token_mint
          ctx.realm_authority.key l
        × (changed r m ≡ m')
  unfolding create_max_voter_weight_record Max.discriminator
  create_max_voter_weight_record_inversion r m m' l h =
      let (_, authority, h₁) =
        >>=-eq-ok
          (require_realm_authority fw r.governance_program_id ctx.realm r.governing_token_mint
            ctx.realm_authority l)
          _ h in
      ((require_realm_authority_iff fw _ ctx.realm _ ctx.realm_authority l).0 authority, cc h₁)

  pub record Outcome (l l' : Ledger) : Type 0 where
    pub registrar : Registrar
    pub fresh : MaxVoterWeightRecord
    pub created : Ledger
    pub accepted : AreAccepted fw ctx l registrar fresh created
    pub authority :
        HasAuthority fw registrar.governance_program_id ctx.realm registrar.governing_token_mint
          ctx.realm_authority.key created
    pub written :
        IsWritten
          (fw.max_voter_weight_record.serialize (changed registrar fresh))
          ctx.max_voter_weight_record.key
          created
          l'

  pub run-Outcome : (l l' : Ledger) → run fw ctx l ≡ ok l' → Outcome l l'
  unfolding run
  run-Outcome l l' h =
      let (m, accepted, h₁) = >>=-eq-ok (accounts fw ctx l) _ h in
      let (v', handled, h₂) = >>=-eq-ok (create_max_voter_weight_record fw ctx m.0 m.1 m.2) _ h₁ in
      let (authority, same) = create_max_voter_weight_record_inversion m.0 m.1 v' m.2 handled in
      record {
        registrar = m.0;
        fresh = m.1;
        created = m.2;
        accepted = accounts-AreAccepted fw ctx l m accepted;
        authority = authority;
        written = rw same (
            exit-IsWritten (fw.max_voter_weight_record.serialize v')
              (anchor account_did_not_serialize) ctx.max_voter_weight_record m.2 l' h₂);
      }
