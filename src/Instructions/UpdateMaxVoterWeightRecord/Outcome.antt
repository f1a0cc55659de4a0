-- ===== src/Instructions/UpdateMaxVoterWeightRecord/Outcome.antt =====
-- What a successful update of a max voter weight record has checked and done.
use iam_governance_plugin.Base.{ℕ, ◌≡◌, none, true}
use iam_governance_plugin.Errors.{anchor, account_did_not_serialize, ok, >>=-eq-ok, require-eq-ok}
use iam_governance_plugin.Solana.{key_eq→eq, Ledger}
use iam_governance_plugin.State.{id, Registrar, MaxVoterWeightRecord}
use iam_governance_plugin.Framework.{Framework}
use iam_governance_plugin.Governance.Max
use iam_governance_plugin.Anchor.{registrar_try_deserialize}
use iam_governance_plugin.Anchor.Laws.{IsLoaded, account-IsLoaded}
use iam_governance_plugin.Anchor.Writes.{IsWritten, exit-IsWritten}
use iam_governance_plugin.Anchor.Registrars.{IsRegistrar}
use iam_governance_plugin.Authority.{require_realm_authority}
use iam_governance_plugin.Authority.Laws.{HasAuthority, require_realm_authority_iff}
use iam_governance_plugin.Instructions.UpdateMaxVoterWeightRecord.{
  UpdateMaxVoterWeightRecord, accounts, update_max_voter_weight_record, run,
}
use iam_governance_plugin.Base.{◌<◌, ltb→lt}

-- The accounts struct accepts these accounts, with this registrar and this record.
pub record AreAccepted (fw : Framework) (ctx : UpdateMaxVoterWeightRecord) (l : Ledger)
    (r : Registrar) (m : MaxVoterWeightRecord) : Type 0 where
  pub registrar : IsRegistrar fw ctx.registrar l r
  pub max_voter_weight_record :
      IsLoaded fw Max.owner (Max.try_deserialize_unchecked fw) ctx.max_voter_weight_record l m
  pub signed : ctx.realm_authority.is_signer ≡ true
  pub writable : ctx.max_voter_weight_record.is_writable ≡ true
  pub record_realm : m.realm ≡ r.realm
  pub record_mint : m.governing_token_mint ≡ r.governing_token_mint
  pub realm : ctx.realm.key ≡ r.realm

accounts-AreAccepted :
    (fw : Framework) (ctx : UpdateMaxVoterWeightRecord) (l : Ledger)
    (read : Registrar × MaxVoterWeightRecord)
    → accounts fw ctx l ≡ ok read
    → AreAccepted fw ctx l read.0 read.1
unfolding accounts
accounts-AreAccepted fw ctx l read h =
    let (r, loaded, h₁) = >>=-eq-ok _ _ h in
    let (m, record_loaded, h₂) = >>=-eq-ok _ _ h₁ in
    let (signed, h₃) = require-eq-ok _ _ _ h₂ in
    let (address, h₄) = require-eq-ok _ _ _ h₃ in
    let (writable, h₅) = require-eq-ok _ _ _ h₄ in
    let (record_realm, h₆) = require-eq-ok _ _ _ h₅ in
    let (record_mint, h₇) = require-eq-ok _ _ _ h₆ in
    let (realm, h₈) = require-eq-ok _ _ _ h₇ in
    let same : (r, m) ≡ read = cc h₈ in
    rw (← same) (record {
      registrar = record {
        loaded = account-IsLoaded fw id (registrar_try_deserialize fw) ctx.registrar l r loaded;
        address = key_eq→eq _ _ address;
      };
      max_voter_weight_record =
          account-IsLoaded fw Max.owner (Max.try_deserialize_unchecked fw)
            ctx.max_voter_weight_record l m record_loaded;
      signed = signed;
      writable = writable;
      record_realm = key_eq→eq _ _ record_realm;
      record_mint = key_eq→eq _ _ record_mint;
      realm = key_eq→eq _ _ realm;
    })

module _ (fw : Framework) (ctx : UpdateMaxVoterWeightRecord) (weight : ℕ) where
  -- The record that the handler leaves.
  abbrev pub changed : MaxVoterWeightRecord → MaxVoterWeightRecord
  changed m = record m { max_voter_weight = weight; max_voter_weight_expiry = none }

  pub record IsHandled (r : Registrar) (l : Ledger) : Type 0 where
    pub positive : 0 < weight
    pub authority :
        HasAuthority fw r.governance_program_id ctx.realm r.governing_token_mint
          ctx.realm_authority.key l

  update_max_voter_weight_record-IsHandled :
      (r : Registrar) (m m' : MaxVoterWeightRecord) (l : Ledger)
      → update_max_voter_weight_record fw ctx weight r m l ≡ ok m'
      → IsHandled r l × (changed m ≡ m')
  unfolding update_max_voter_weight_record
  update_max_voter_weight_record-IsHandled r m m' l h =
      let (positive, h₁) = require-eq-ok _ _ _ h in
      let (_, authority, h₂) =
        >>=-eq-ok
          (require_realm_authority fw r.governance_program_id ctx.realm r.governing_token_mint
            ctx.realm_authority l)
          _ h₁ in
      (
        record {
          positive = ltb→lt 0 weight positive;
          authority =
              (require_realm_authority_iff fw _ ctx.realm _ ctx.realm_authority l).0 authority;
        },
        cc h₂,
      )

  pub record Outcome (l l' : Ledger) : Type 0 where
    pub registrar : Registrar
    pub before : MaxVoterWeightRecord
    pub accepted : AreAccepted fw ctx l registrar before
    pub handled : IsHandled registrar l
    pub written :
        IsWritten
          (fw.max_voter_weight_record.serialize (changed before))
          ctx.max_voter_weight_record.key
          l
          l'

  pub run-Outcome : (l l' : Ledger) → run fw ctx weight l ≡ ok l' → Outcome l l'
  unfolding run
  run-Outcome l l' h =
      let (read, accepted, h₁) = >>=-eq-ok (accounts fw ctx l) _ h in
      let (m', handled, h₂) =
        >>=-eq-ok (update_max_voter_weight_record fw ctx weight read.0 read.1 l) _ h₁ in
      let (done, same) = update_max_voter_weight_record-IsHandled read.0 read.1 m' l handled in
      record {
        registrar = read.0;
        before = read.1;
        accepted = accounts-AreAccepted fw ctx l read accepted;
        handled = done;
        written = rw same (
            exit-IsWritten (fw.max_voter_weight_record.serialize m')
              (anchor account_did_not_serialize) ctx.max_voter_weight_record l l' h₂);
      }
