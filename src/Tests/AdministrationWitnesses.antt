-- ===== src/Tests/AdministrationWitnesses.antt =====
-- The theorems on the instructions of the realm's authority at the sample history.
use iam_governance_plugin.Base.{◌≡◌, ◌<◌, refl, arith, none, true, some}
use iam_governance_plugin.Base.Int.{pos, ◌<ℤ◌}
use iam_governance_plugin.Errors.{ok}
use iam_governance_plugin.Solana.{Ledger, put}
use iam_governance_plugin.State.{id, Registrar, registrar_len}
use iam_governance_plugin.Framework.Laws.{zero_max_voter_weight_record}
use iam_governance_plugin.Authority.Laws.{HasAuthority}
use iam_governance_plugin.Program.Reads.{ReadsRegistrar}
use iam_governance_plugin.Program.Administration.{
  ReadsMax, create_registrar_effect, create_max_voter_weight_record_effect,
  update_max_voter_weight_record_effect,
}
use iam_governance_plugin.Tests.MaxCodec
use iam_governance_plugin.Tests.World.{fw, account_laws, codec_laws}
use iam_governance_plugin.Tests.Sample.{
  governance, realm, authority, mint, payer, info, genesis, registrar_key,
}
use iam_governance_plugin.Tests.History.{create_registrar_ctx, with_registrar, registrar_created}
use iam_governance_plugin.Tests.Facts.{sample_registrar, registrar-IsSound}
use iam_governance_plugin.Tests.Quorum.{
  max_key, create_max_ctx, with_max, max_created, idle_max, max_reads_back, max-IsSound,
  update_max_ctx, with_quorum, quorum_set,
}

create_registrar_effect_example :
    (created : Ledger) × (fw.create_account payer registrar_key registrar_len id genesis
      ≡ ok created)
    × ReadsRegistrar fw with_registrar registrar_key sample_registrar
    × (pos 0 <ℤ pos 86400)
    × ((genesis registrar_key).owner ≡ fw.system_program)
    × (true ≡ true)
    × HasAuthority fw governance (info realm) mint authority created
create_registrar_effect_example =
    create_registrar_effect fw account_laws codec_laws genesis with_registrar create_registrar_ctx
      50 (pos 86400) refl refl refl (omega arith) (ground arith) registrar_created

create_max_voter_weight_record_effect_example :
    (r : Registrar) × ReadsRegistrar fw with_registrar registrar_key r
    × ReadsMax fw with_max max_key (record zero_max_voter_weight_record {
      account_discriminator = MaxCodec.tag;
      realm = r.realm;
      governing_token_mint = r.governing_token_mint;
      max_voter_weight_expiry = some 0;
    })
    × ((with_registrar max_key).owner ≡ fw.system_program)
create_max_voter_weight_record_effect_example =
    create_max_voter_weight_record_effect fw account_laws codec_laws with_registrar with_max
      registrar-IsSound create_max_ctx max_created

update_max_voter_weight_record_effect_example :
    (0 < 9)
    × ReadsMax fw with_quorum max_key
        (record idle_max { max_voter_weight = 9; max_voter_weight_expiry = none })
    × (with_quorum ≡ put max_key (with_quorum max_key) with_max)
update_max_voter_weight_record_effect_example =
    update_max_voter_weight_record_effect fw account_laws codec_laws with_max with_quorum
      max-IsSound update_max_ctx 9 idle_max (omega arith) max_reads_back quorum_set
