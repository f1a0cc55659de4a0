-- ===== src/Tests/Quorum.antt =====
-- The sample history with a max voter weight record: the authority creates it and sets it to 9.
use iam_governance_plugin.Base.{◌≡◌, refl, true, some, replicate}
use iam_governance_plugin.Errors.{ok}
use iam_governance_plugin.Solana.{Pubkey, Ledger}
use iam_governance_plugin.State.{MaxVoterWeightRecord}
use iam_governance_plugin.Framework.Laws.{zero_key}
use iam_governance_plugin.Seeds.{derived, max_voter_weight_record_seeds}
use iam_governance_plugin.Instructions.CreateMaxVoterWeightRecord
use iam_governance_plugin.Instructions.CreateMaxVoterWeightRecord.{CreateMaxVoterWeightRecord}
use iam_governance_plugin.Instructions.UpdateMaxVoterWeightRecord
use iam_governance_plugin.Instructions.UpdateMaxVoterWeightRecord.{UpdateMaxVoterWeightRecord}
use iam_governance_plugin.Program.Administration.{ReadsMax}
use iam_governance_plugin.Program.Genuine.{IsSound}
use iam_governance_plugin.Program.Soundness.Maximums.{create_max_voter_weight_record-IsSound}
use iam_governance_plugin.Tests.World.{fw, account_laws, codec_laws}
use iam_governance_plugin.Tests.MaxCodec
use iam_governance_plugin.Tests.Sample.{
  realm, authority, mint, payer, info, signing, writing, registrar_key,
}
use iam_governance_plugin.Tests.History.{with_registrar, value_of, succeeds, succeeds-ok}
use iam_governance_plugin.Tests.Facts.{registrar-IsSound}

unfoldable pub max_key : Pubkey
max_key = derived fw (max_voter_weight_record_seeds realm mint)

abbrev pub create_max_ctx : CreateMaxVoterWeightRecord
create_max_ctx = record {
  registrar = info registrar_key;
  max_voter_weight_record = writing max_key;
  realm = info realm;
  realm_authority = signing authority;
  payer = signing payer;
  system_program = info zero_key;
}

-- The ledger with the max voter weight record.
unfoldable pub with_max : Ledger
unfolding with_registrar CreateMaxVoterWeightRecord.run max_key max_voter_weight_record_seeds
    MaxCodec.deserialize MaxCodec.serialize
with_max = value_of (CreateMaxVoterWeightRecord.run fw create_max_ctx with_registrar) with_registrar

max_succeeds : succeeds (CreateMaxVoterWeightRecord.run fw create_max_ctx with_registrar) ≡ true
unfolding with_max
max_succeeds = refl

pub max_created : CreateMaxVoterWeightRecord.run fw create_max_ctx with_registrar ≡ ok with_max
unfolding with_max
max_created = succeeds-ok _ with_registrar max_succeeds

abbrev pub idle_max : MaxVoterWeightRecord
idle_max = record {
  account_discriminator = MaxCodec.tag;
  realm = realm;
  governing_token_mint = mint;
  max_voter_weight = 0;
  max_voter_weight_expiry = some 0;
  reserved = replicate 8 0;
}

pub max_reads_back : ReadsMax fw with_max max_key idle_max
unfolding with_max
max_reads_back = record { owned = refl; tagged = refl; read = refl }

pub max-IsSound : IsSound fw with_max
max-IsSound =
    create_max_voter_weight_record-IsSound fw account_laws codec_laws registrar-IsSound
      create_max_ctx max_created

abbrev pub update_max_ctx : UpdateMaxVoterWeightRecord
update_max_ctx = record {
  registrar = info registrar_key;
  max_voter_weight_record = writing max_key;
  realm = info realm;
  realm_authority = signing authority;
}

-- The ledger with the maximum set.
unfoldable pub with_quorum : Ledger
unfolding with_max UpdateMaxVoterWeightRecord.run
with_quorum = value_of (UpdateMaxVoterWeightRecord.run fw update_max_ctx 9 with_max) with_max

quorum_succeeds : succeeds (UpdateMaxVoterWeightRecord.run fw update_max_ctx 9 with_max) ≡ true
unfolding with_quorum
quorum_succeeds = refl

pub quorum_set : UpdateMaxVoterWeightRecord.run fw update_max_ctx 9 with_max ≡ ok with_quorum
unfolding with_quorum
quorum_set = succeeds-ok _ with_max quorum_succeeds
