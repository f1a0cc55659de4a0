-- ===== src/Program/Fresh.antt =====
-- What `init` hands to a handler: a record of zeros.
use iam_governance_plugin.Base.{◌≡◌, ap, List}
use iam_governance_plugin.Base.Bytes.{Bytes}
use iam_governance_plugin.Errors.{ok_or-eq-ok}
use iam_governance_plugin.Solana.{Ledger, AccountInfo}
use iam_governance_plugin.State.{
  id, Registrar, registrar_len, VoterWeightRecord, voter_weight_record_space, MaxVoterWeightRecord,
  max_voter_weight_record_space,
}
use iam_governance_plugin.Framework.{Framework}
use iam_governance_plugin.Framework.Laws.{
  AccountLaws, CodecLaws, zero_registrar, zero_voter_weight_record, zero_max_voter_weight_record,
}
use iam_governance_plugin.Governance.Voter
use iam_governance_plugin.Governance.Max
use iam_governance_plugin.Anchor.{registrar_try_deserialize_unchecked}
use iam_governance_plugin.Anchor.Laws.{IsCreated}

module _ (fw : Framework) (account_laws : AccountLaws fw) (laws : CodecLaws fw) (seeds : List Bytes)
    (payer info : AccountInfo) (l l' : Ledger) where
  pub fresh_registrar :
      (r : Registrar)
      → IsCreated fw id
          (registrar_try_deserialize_unchecked fw)
          seeds
          registrar_len
          payer
          info
          l
          r
          l'
      → zero_registrar ≡ r
  unfolding registrar_try_deserialize_unchecked
  fresh_registrar r h =
      let zeros =
        (account_laws.create_account_new payer.key info.key registrar_len id l l' h.created).1 in
      cc (laws.registrar_zero, ap fw.registrar_unchecked zeros, ok_or-eq-ok _ _ h.read)

  pub fresh_voter :
      (v : VoterWeightRecord)
      → IsCreated fw Voter.owner
          (Voter.try_deserialize_unchecked fw)
          seeds
          voter_weight_record_space
          payer
          info
          l
          v
          l'
      → zero_voter_weight_record ≡ v
  unfolding Voter.try_deserialize_unchecked
  fresh_voter v h =
      let zeros =
        (account_laws.create_account_new payer.key info.key voter_weight_record_space id l l'
          h.created).1 in
      cc (laws.voter_zero, ap fw.voter_weight_record.deserialize zeros, ok_or-eq-ok _ _ h.read)

  pub fresh_max :
      (m : MaxVoterWeightRecord)
      → IsCreated fw Max.owner
          (Max.try_deserialize_unchecked fw)
          seeds
          max_voter_weight_record_space
          payer
          info
          l
          m
          l'
      → zero_max_voter_weight_record ≡ m
  unfolding Max.try_deserialize_unchecked
  fresh_max m h =
      let zeros =
        (account_laws.create_account_new payer.key info.key max_voter_weight_record_space id l l'
          h.created).1 in
      cc (laws.max_zero, ap fw.max_voter_weight_record.deserialize zeros, ok_or-eq-ok _ _ h.read)
