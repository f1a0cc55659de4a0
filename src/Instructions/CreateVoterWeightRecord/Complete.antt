-- ===== src/Instructions/CreateVoterWeightRecord/Complete.antt =====
-- The conditions of a creation of a voter weight record.
use iam_governance_plugin.Base.{◌≡◌, ◌↔◌}
use iam_governance_plugin.Errors.{anchor, account_did_not_serialize, ok}
use iam_governance_plugin.Solana.{Pubkey, key_eq_iff, Ledger}
use iam_governance_plugin.State.{id, voter_weight_record_space, Registrar, VoterWeightRecord}
use iam_governance_plugin.Framework.{Framework}
use iam_governance_plugin.Governance.Voter
use iam_governance_plugin.Seeds.{voter_weight_record_seeds}
use iam_governance_plugin.Anchor.{init, registrar_try_deserialize}
use iam_governance_plugin.Anchor.Laws.{IsLoaded-account, IsCreated-init}
use iam_governance_plugin.Anchor.Writes.{IsWritten-exit_to}
use iam_governance_plugin.Instructions.CreateVoterWeightRecord.{
  CreateVoterWeightRecord, accounts, create_voter_weight_record, run,
}
use iam_governance_plugin.Instructions.CreateVoterWeightRecord.Outcome.{
  AreAccepted, changed, Outcome, run-Outcome,
}

AreAccepted-accounts :
    (fw : Framework) (ctx : CreateVoterWeightRecord) (token_owner : Pubkey) (l : Ledger)
    (r : Registrar) (fresh : VoterWeightRecord) (l' : Ledger)
    → AreAccepted fw ctx token_owner l r fresh l'
    → accounts fw ctx token_owner l ≡ ok (r, fresh, l')
unfolding accounts init
AreAccepted-accounts fw ctx token_owner l r fresh l' h = rw (
  IsLoaded-account fw id (registrar_try_deserialize fw) ctx.registrar l r h.registrar.loaded,
  h.signed,
  h.payer_signed,
  (key_eq_iff _ _).1 h.system_program,
  IsCreated-init fw Voter.owner (Voter.try_deserialize_unchecked fw)
      (voter_weight_record_seeds r.realm r.governing_token_mint token_owner)
      voter_weight_record_space ctx.payer ctx.voter_weight_record l l' fresh h.created,
  (key_eq_iff _ _).1 h.registrar.address,
  h.payer_writable,
)

module _ (fw : Framework) (ctx : CreateVoterWeightRecord) (token_owner : Pubkey) where
  mine-create_voter_weight_record :
      (r : Registrar) (fresh : VoterWeightRecord)
      → ctx.governing_token_owner_signer.key ≡ token_owner
      → create_voter_weight_record fw ctx token_owner r fresh
        ≡ ok (changed fw ctx token_owner r fresh)
  unfolding create_voter_weight_record Voter.discriminator
  mine-create_voter_weight_record r fresh h = rw ((key_eq_iff _ _).1 h)

  Outcome-run : (l l' : Ledger) → Outcome fw ctx token_owner l l' → run fw ctx token_owner l ≡ ok l'
  unfolding run
  Outcome-run l l' o =
      rw
        (
          AreAccepted-accounts fw ctx token_owner l o.registrar o.fresh o.created o.accepted,
          mine-create_voter_weight_record o.registrar o.fresh o.signer_is_owner,
        )
        (IsWritten-exit_to
          (fw.voter_weight_record.serialize (changed fw ctx token_owner o.registrar o.fresh))
          (anchor account_did_not_serialize) ctx.voter_weight_record o.created l' o.written)

  -- The creation of a voter weight record succeeds with a ledger exactly if the accounts are
  -- accepted and the record's is created, the owner of the arguments has signed, and the ledger is
  -- the one after the creation with the record's fields written.
  pub create_voter_weight_record_iff :
      (l l' : Ledger) → (run fw ctx token_owner l ≡ ok l') ↔ Outcome fw ctx token_owner l l'
  create_voter_weight_record_iff l l' = (run-Outcome fw ctx token_owner l l', Outcome-run l l')
