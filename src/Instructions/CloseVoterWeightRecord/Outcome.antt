-- ===== src/Instructions/CloseVoterWeightRecord/Outcome.antt =====
-- What a successful closing of a voter weight record has checked and done.
use iam_governance_plugin.Base.{◌≢◌, ◌≡◌, true}
use iam_governance_plugin.Errors.{ok, >>=-eq-ok, require-eq-ok, require-eq-ok_last}
use iam_governance_plugin.Solana.{key_eq→eq, key_ne, Ledger}
use iam_governance_plugin.State.{id, Registrar, VoterWeightRecord}
use iam_governance_plugin.Framework.{Framework}
use iam_governance_plugin.Governance.Voter
use iam_governance_plugin.Anchor.{registrar_try_deserialize}
use iam_governance_plugin.Anchor.Laws.{IsLoaded, account-IsLoaded}
use iam_governance_plugin.Anchor.Registrars.{IsRegistrar}
use iam_governance_plugin.Instructions.CloseVoterWeightRecord.{
  CloseVoterWeightRecord, accounts, close_voter_weight_record, run,
}

-- The accounts struct accepts these accounts, with this registrar and this record.
pub record AreAccepted (fw : Framework) (ctx : CloseVoterWeightRecord) (l : Ledger) (r : Registrar)
    (v : VoterWeightRecord) : Type 0 where
  pub registrar : IsRegistrar fw ctx.registrar l r
  pub voter_weight_record :
      IsLoaded fw Voter.owner (Voter.try_deserialize_unchecked fw) ctx.voter_weight_record l v
  pub signed : ctx.voter_authority.is_signer ≡ true
  pub writable : ctx.voter_weight_record.is_writable ≡ true
  pub record_realm : v.realm ≡ r.realm
  pub record_mint : v.governing_token_mint ≡ r.governing_token_mint
  pub distinct : ctx.voter_weight_record.key ≢ ctx.sol_destination.key
  pub destination_writable : ctx.sol_destination.is_writable ≡ true

accounts-AreAccepted :
    (fw : Framework) (ctx : CloseVoterWeightRecord) (l : Ledger) (v₁ : VoterWeightRecord)
    → accounts fw ctx l ≡ ok v₁
    → (r : Registrar) × AreAccepted fw ctx l r v₁
unfolding accounts
accounts-AreAccepted fw ctx l v₁ h =
    let (r, loaded, h₁) = >>=-eq-ok _ _ h in
    let (v, record_loaded, h₂) = >>=-eq-ok _ _ h₁ in
    let (signed, h₃) = require-eq-ok _ _ _ h₂ in
    let (address, h₄) = require-eq-ok _ _ _ h₃ in
    let (writable, h₅) = require-eq-ok _ _ _ h₄ in
    let (record_realm, h₆) = require-eq-ok _ _ _ h₅ in
    let (record_mint, h₇) = require-eq-ok _ _ _ h₆ in
    let (distinct, h₈) = require-eq-ok _ _ _ h₇ in
    let (destination_writable, h₉) = require-eq-ok _ _ _ h₈ in
    let same : v ≡ v₁ = cc h₉ in
    rw (← same) (
      r,
      record {
        registrar = record {
          loaded = account-IsLoaded fw id (registrar_try_deserialize fw) ctx.registrar l r loaded;
          address = key_eq→eq _ _ address;
        };
        voter_weight_record =
            account-IsLoaded fw Voter.owner (Voter.try_deserialize_unchecked fw)
              ctx.voter_weight_record l v record_loaded;
        signed = signed;
        writable = writable;
        record_realm = key_eq→eq _ _ record_realm;
        record_mint = key_eq→eq _ _ record_mint;
        distinct = key_ne _ _ distinct;
        destination_writable = destination_writable;
      },
    )

close_voter_weight_record_inversion :
    (ctx : CloseVoterWeightRecord) (v : VoterWeightRecord)
    → close_voter_weight_record ctx v ≡ ok tt
    → v.governing_token_owner ≡ ctx.voter_authority.key
unfolding close_voter_weight_record
close_voter_weight_record_inversion ctx v h = key_eq→eq _ _ (require-eq-ok_last _ _ h)

module _ (fw : Framework) (ctx : CloseVoterWeightRecord) where
  pub record Outcome (l l' : Ledger) : Type 0 where
    pub registrar : Registrar
    pub before : VoterWeightRecord
    pub accepted : AreAccepted fw ctx l registrar before
    pub mine : before.governing_token_owner ≡ ctx.voter_authority.key
    pub closed : fw.close ctx.voter_weight_record.key ctx.sol_destination.key l ≡ ok l'

  pub run-Outcome : (l l' : Ledger) → run fw ctx l ≡ ok l' → Outcome l l'
  unfolding run
  run-Outcome l l' h =
      let (v, accepted, h₁) = >>=-eq-ok (accounts fw ctx l) _ h in
      let (_, handled, h₂) = >>=-eq-ok (close_voter_weight_record ctx v) _ h₁ in
      let (r, ok_accounts) = accounts-AreAccepted fw ctx l v accepted in
      record {
        registrar = r;
        before = v;
        accepted = ok_accounts;
        mine = close_voter_weight_record_inversion ctx v handled;
        closed = h₂;
      }
