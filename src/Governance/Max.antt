-- ===== src/Governance/Max.antt =====
-- The implementations that `max_voter_weight_record!` generates for `MaxVoterWeightRecord`.
use iam_governance_plugin.Base.Bytes.{Bytes}
use iam_governance_plugin.Errors.{
  anchor, account_did_not_deserialize, account_did_not_serialize, Result, ok_or,
}
use iam_governance_plugin.Solana.{Pubkey}
use iam_governance_plugin.State.{id, MaxVoterWeightRecord}
use iam_governance_plugin.Framework.{Framework}
use iam_governance_plugin.Buffer.{fill}

-- `AccountDeserialize`. Anchor's `try_deserialize` is this function, since the macro does not
-- override it.
unfoldable pub try_deserialize_unchecked : Framework → Bytes → Result MaxVoterWeightRecord
try_deserialize_unchecked fw bytes =
    ok_or (fw.max_voter_weight_record.deserialize bytes) (anchor account_did_not_deserialize)

-- `AccountSerialize`, into the account's data.
unfoldable pub try_serialize : Framework → MaxVoterWeightRecord → Bytes → Result Bytes
try_serialize fw record' bytes =
    ok_or (fill (fw.max_voter_weight_record.serialize record') bytes)
      (anchor account_did_not_serialize)

-- `Owner`
abbrev pub owner : Pubkey
owner = id

-- `Discriminator`
unfoldable pub discriminator : Framework → Bytes
discriminator fw = fw.max_voter_weight_record_discriminator
