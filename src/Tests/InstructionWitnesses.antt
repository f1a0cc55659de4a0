-- ===== src/Tests/InstructionWitnesses.antt =====
-- The conditions of the instructions at the sample history.
use iam_governance_plugin.Base.{◌≡◌, ◌↔◌}
use iam_governance_plugin.Base.Int.{pos}
use iam_governance_plugin.Errors.{ok}
use iam_governance_plugin.Instructions.CreateRegistrar
use iam_governance_plugin.Instructions.CreateRegistrar.Outcome as OfCreateRegistrar
use iam_governance_plugin.Instructions.CreateRegistrar.Complete.{create_registrar_iff}
use iam_governance_plugin.Instructions.UpdateRegistrar
use iam_governance_plugin.Instructions.UpdateRegistrar.Outcome as OfUpdateRegistrar
use iam_governance_plugin.Instructions.UpdateRegistrar.Complete.{update_registrar_iff}
use iam_governance_plugin.Instructions.CloseRegistrar
use iam_governance_plugin.Instructions.CloseRegistrar.Outcome as OfCloseRegistrar
use iam_governance_plugin.Instructions.CloseRegistrar.Complete.{close_registrar_iff}
use iam_governance_plugin.Instructions.CreateVoterWeightRecord
use iam_governance_plugin.Instructions.CreateVoterWeightRecord.Outcome as OfCreateVoterWeightRecord
use iam_governance_plugin.Instructions.CreateVoterWeightRecord.Complete.{
  create_voter_weight_record_iff,
}
use iam_governance_plugin.Instructions.CloseVoterWeightRecord
use iam_governance_plugin.Instructions.CloseVoterWeightRecord.Outcome as OfCloseVoterWeightRecord
use iam_governance_plugin.Instructions.CloseVoterWeightRecord.Complete.{
  close_voter_weight_record_iff,
}
use iam_governance_plugin.Instructions.CreateMaxVoterWeightRecord
use iam_governance_plugin.Instructions.CreateMaxVoterWeightRecord.Outcome as OfCreateMaxVoterWeightRecord
use iam_governance_plugin.Instructions.CreateMaxVoterWeightRecord.Complete.{
  create_max_voter_weight_record_iff,
}
use iam_governance_plugin.Instructions.UpdateMaxVoterWeightRecord
use iam_governance_plugin.Instructions.UpdateMaxVoterWeightRecord.Outcome as OfUpdateMaxVoterWeightRecord
use iam_governance_plugin.Instructions.UpdateMaxVoterWeightRecord.Complete.{
  update_max_voter_weight_record_iff,
}
use iam_governance_plugin.Tests.World.{fw}
use iam_governance_plugin.Tests.Sample.{voter, genesis}
use iam_governance_plugin.Tests.History.{
  create_registrar_ctx, update_registrar_ctx, close_registrar_ctx, create_record_ctx,
  close_record_ctx, with_registrar, with_floor, with_weight, without_registrar, with_record,
  without_record,
}
use iam_governance_plugin.Tests.Quorum.{create_max_ctx, update_max_ctx, with_max, with_quorum}

create_registrar_iff_example :
    (CreateRegistrar.run fw create_registrar_ctx 50 (pos 86400) genesis ≡ ok with_registrar)
    ↔ OfCreateRegistrar.Outcome fw create_registrar_ctx 50 (pos 86400) genesis with_registrar
create_registrar_iff_example =
    create_registrar_iff fw create_registrar_ctx 50 (pos 86400) genesis with_registrar

update_registrar_iff_example :
    (UpdateRegistrar.run fw update_registrar_ctx 80 (pos 86400) with_registrar ≡ ok with_floor)
    ↔ OfUpdateRegistrar.Outcome fw update_registrar_ctx 80 (pos 86400) with_registrar with_floor
update_registrar_iff_example =
    update_registrar_iff fw update_registrar_ctx 80 (pos 86400) with_registrar with_floor

close_registrar_iff_example :
    (CloseRegistrar.run fw close_registrar_ctx with_weight ≡ ok without_registrar)
    ↔ OfCloseRegistrar.Outcome fw close_registrar_ctx with_weight without_registrar
close_registrar_iff_example =
    close_registrar_iff fw close_registrar_ctx with_weight without_registrar

create_voter_weight_record_iff_example :
    (CreateVoterWeightRecord.run fw create_record_ctx voter with_registrar ≡ ok with_record)
    ↔ OfCreateVoterWeightRecord.Outcome fw create_record_ctx voter with_registrar with_record
create_voter_weight_record_iff_example =
    create_voter_weight_record_iff fw create_record_ctx voter with_registrar with_record

close_voter_weight_record_iff_example :
    (CloseVoterWeightRecord.run fw close_record_ctx with_weight ≡ ok without_record)
    ↔ OfCloseVoterWeightRecord.Outcome fw close_record_ctx with_weight without_record
close_voter_weight_record_iff_example =
    close_voter_weight_record_iff fw close_record_ctx with_weight without_record

create_max_voter_weight_record_iff_example :
    (CreateMaxVoterWeightRecord.run fw create_max_ctx with_registrar ≡ ok with_max)
    ↔ OfCreateMaxVoterWeightRecord.Outcome fw create_max_ctx with_registrar with_max
create_max_voter_weight_record_iff_example =
    create_max_voter_weight_record_iff fw create_max_ctx with_registrar with_max

update_max_voter_weight_record_iff_example :
    (UpdateMaxVoterWeightRecord.run fw update_max_ctx 9 with_max ≡ ok with_quorum)
    ↔ OfUpdateMaxVoterWeightRecord.Outcome fw update_max_ctx 9 with_max with_quorum
update_max_voter_weight_record_iff_example =
    update_max_voter_weight_record_iff fw update_max_ctx 9 with_max with_quorum
