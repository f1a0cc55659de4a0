-- ===== src/Instructions/UpdateVoterWeightRecord/Outcome.antt =====
-- What a successful update of a voter weight record has checked and done.
use iam_governance_plugin.Base.{◌≡◌, none, some, true}
use iam_governance_plugin.Errors.{
  anchor, account_did_not_serialize, Result, ok, >>=-eq-ok, require-eq-ok,
}
use iam_governance_plugin.Solana.{key_eq→eq, Ledger, Clock}
use iam_governance_plugin.State.{id, Registrar, VoterWeightRecord}
use iam_governance_plugin.Framework.{Framework}
use iam_governance_plugin.Governance.Voter
use iam_governance_plugin.Anchor.{registrar_try_deserialize}
use iam_governance_plugin.Anchor.Laws.{IsLoaded, account-IsLoaded}
use iam_governance_plugin.Anchor.Writes.{IsWritten, exit-IsWritten}
use iam_governance_plugin.Anchor.Registrars.{IsRegistrar}
use iam_governance_plugin.Instructions.UpdateVoterWeightRecord.{
  UpdateVoterWeightRecord, accounts, update_voter_weight_record, run,
}
use iam_governance_plugin.Identity.{
  IdentityFields, read_identity, check_eligibility, saturating_add,
}
use iam_governance_plugin.Identity.Reading.{IsIdentity, read_identity_iff}
use iam_governance_plugin.Identity.Recency.{IsEligible, check_eligibility_iff}

-- The accounts struct accepts these accounts, with this registrar and this record.
pub record AreAccepted (fw : Framework) (ctx : UpdateVoterWeightRecord) (l : Ledger) (r : Registrar)
    (v : VoterWeightRecord) : Type 0 where
  pub registrar : IsRegistrar fw ctx.registrar l r
  pub voter_weight_record :
      IsLoaded fw Voter.owner (Voter.try_deserialize_unchecked fw) ctx.voter_weight_record l v
  pub signed : ctx.voter_authority.is_signer ≡ true
  pub writable : ctx.voter_weight_record.is_writable ≡ true
  pub record_realm : v.realm ≡ r.realm
  pub record_mint : v.governing_token_mint ≡ r.governing_token_mint

accounts-AreAccepted :
    (fw : Framework) (ctx : UpdateVoterWeightRecord) (l : Ledger)
    (read : Registrar × VoterWeightRecord)
    → accounts fw ctx l ≡ ok read
    → AreAccepted fw ctx l read.0 read.1
unfolding accounts
accounts-AreAccepted fw ctx l read h =
    let (r, loaded, h₁) = >>=-eq-ok _ _ h in
    let (v, record_loaded, h₂) = >>=-eq-ok _ _ h₁ in
    let (signed, h₃) = require-eq-ok _ _ _ h₂ in
    let (address, h₄) = require-eq-ok _ _ _ h₃ in
    let (writable, h₅) = require-eq-ok _ _ _ h₄ in
    let (record_realm, h₆) = require-eq-ok _ _ _ h₅ in
    let (record_mint, h₇) = require-eq-ok _ _ _ h₆ in
    let same : (r, v) ≡ read = cc h₇ in
    rw (← same) (record {
      registrar = record {
        loaded = account-IsLoaded fw id (registrar_try_deserialize fw) ctx.registrar l r loaded;
        address = key_eq→eq _ _ address;
      };
      voter_weight_record =
          account-IsLoaded fw Voter.owner (Voter.try_deserialize_unchecked fw)
            ctx.voter_weight_record l v record_loaded;
      signed = signed;
      writable = writable;
      record_realm = key_eq→eq _ _ record_realm;
      record_mint = key_eq→eq _ _ record_mint;
    })

-- The record that the handler leaves at this clock.
abbrev pub changed : Clock → VoterWeightRecord → VoterWeightRecord
changed clock v = record v {
  voter_weight = 1;
  voter_weight_expiry = some (saturating_add clock.slot 100);
  weight_action = none;
  weight_action_target = none;
}

module _ (fw : Framework) (ctx : UpdateVoterWeightRecord) (get_clock : Result Clock) where
  -- The signer owns the record, and their identity account makes them eligible.
  pub record IsHandled (r : Registrar) (v : VoterWeightRecord) (l : Ledger) (clock : Clock)
      : Type 0 where
    pub mine : v.governing_token_owner ≡ ctx.voter_authority.key
    pub identity : IdentityFields
    pub is_identity : IsIdentity fw ctx.voter_authority.key ctx.remaining_accounts l identity
    pub clock_read : get_clock ≡ ok clock
    pub eligible : IsEligible identity r.min_trust_score r.max_verification_age clock

  pub update_voter_weight_record-IsHandled :
      (r : Registrar) (v v' : VoterWeightRecord) (l : Ledger)
      → update_voter_weight_record fw ctx get_clock r v l ≡ ok v'
      → (clock : Clock) × IsHandled r v l clock × (changed clock v ≡ v')
  unfolding update_voter_weight_record
  update_voter_weight_record-IsHandled r v v' l h =
      let (mine, h₁) = require-eq-ok _ _ _ h in
      let (identity, read, h₂) =
        >>=-eq-ok (read_identity fw ctx.voter_authority.key ctx.remaining_accounts l) _ h₁ in
      let (clock, checked, h₃) =
        >>=-eq-ok (check_eligibility identity r.min_trust_score r.max_verification_age get_clock) _
          h₂ in
      let (clock_read, eligible) = (check_eligibility_iff identity _ _ get_clock clock).0 checked in
      (
        clock,
        record {
          mine = key_eq→eq _ _ mine;
          identity = identity;
          is_identity = (read_identity_iff fw _ _ l identity).0 read;
          clock_read = clock_read;
          eligible = eligible;
        },
        cc h₃,
      )

  pub record Outcome (l l' : Ledger) : Type 0 where
    pub registrar : Registrar
    pub before : VoterWeightRecord
    pub clock : Clock
    pub accepted : AreAccepted fw ctx l registrar before
    pub handled : IsHandled registrar before l clock
    pub written :
        IsWritten
          (fw.voter_weight_record.serialize (changed clock before))
          ctx.voter_weight_record.key
          l
          l'

  pub run-Outcome : (l l' : Ledger) → run fw ctx get_clock l ≡ ok l' → Outcome l l'
  unfolding run
  run-Outcome l l' h =
      let (read, accepted, h₁) = >>=-eq-ok (accounts fw ctx l) _ h in
      let (v', handled, h₂) =
        >>=-eq-ok (update_voter_weight_record fw ctx get_clock read.0 read.1 l) _ h₁ in
      let (clock, done, same) = update_voter_weight_record-IsHandled read.0 read.1 v' l handled in
      record {
        registrar = read.0;
        before = read.1;
        clock = clock;
        accepted = accounts-AreAccepted fw ctx l read accepted;
        handled = done;
        written = rw same (
            exit-IsWritten (fw.voter_weight_record.serialize v') (anchor account_did_not_serialize)
              ctx.voter_weight_record l l' h₂);
      }
