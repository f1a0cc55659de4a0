-- ===== src/Instructions/CloseVoterWeightRecord/Complete.antt =====
-- The conditions of a closing of a voter weight record.
use iam_governance_plugin.Base.{◌≡◌, ◌↔◌}
use iam_governance_plugin.Errors.{ok}
use iam_governance_plugin.Solana.{key_eq_iff, key_eq_ne, Ledger}
use iam_governance_plugin.State.{id, Registrar, VoterWeightRecord}
use iam_governance_plugin.Framework.{Framework}
use iam_governance_plugin.Governance.Voter
use iam_governance_plugin.Anchor.{registrar_try_deserialize}
use iam_governance_plugin.Anchor.Laws.{IsLoaded-account}
use iam_governance_plugin.Instructions.CloseVoterWeightRecord.{
  CloseVoterWeightRecord, accounts, close_voter_weight_record, run,
}
use iam_governance_plugin.Instructions.CloseVoterWeightRecord.Outcome.{
  AreAccepted, Outcome, run-Outcome,
}

AreAccepted-accounts :
    (fw : Framework) (ctx : CloseVoterWeightRecord) (l : Ledger) (r : Registrar)
    (v : VoterWeightRecord)
    → AreAccepted fw ctx l r v
    → accounts fw ctx l ≡ ok v
unfolding accounts
AreAccepted-accounts fw ctx l r v h = rw (
  IsLoaded-account fw id (registrar_try_deserialize fw) ctx.registrar l r h.registrar.loaded,
  IsLoaded-account fw Voter.owner (Voter.try_deserialize_unchecked fw) ctx.voter_weight_record l v
      h.voter_weight_record,
  h.signed,
  (key_eq_iff _ _).1 h.registrar.address,
  h.writable,
  (key_eq_iff _ _).1 h.record_realm,
  (key_eq_iff _ _).1 h.record_mint,
  key_eq_ne _ _ h.distinct,
  h.destination_writable,
)

module _ (fw : Framework) (ctx : CloseVoterWeightRecord) where
  mine-close_voter_weight_record :
      (v : VoterWeightRecord)
      → v.governing_token_owner ≡ ctx.voter_authority.key
      → close_voter_weight_record ctx v ≡ ok tt
  unfolding close_voter_weight_record
  mine-close_voter_weight_record v h = rw ((key_eq_iff _ _).1 h)

  Outcome-run : (l l' : Ledger) → Outcome fw ctx l l' → run fw ctx l ≡ ok l'
  unfolding run
  Outcome-run l l' o =
      rw
        (
          AreAccepted-accounts fw ctx l o.registrar o.before o.accepted,
          mine-close_voter_weight_record o.before o.mine,
        )
        o.closed

  -- The closing of a voter weight record succeeds with a ledger exactly if the accounts are
  -- accepted, the record's owner has signed, and the ledger is what Anchor's closing of the
  -- account gives.
  pub close_voter_weight_record_iff : (l l' : Ledger) → (run fw ctx l ≡ ok l') ↔ Outcome fw ctx l l'
  close_voter_weight_record_iff l l' = (run-Outcome fw ctx l l', Outcome-run l l')
