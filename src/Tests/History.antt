-- ===== src/Tests/History.antt =====
-- A history of the program on the sample: the authority creates the registrar, the voter creates a
-- record and updates it; then the record is closed, or the registrar is. Besides, the floor is raised.
use iam_governance_plugin.Base.{◌≡◌, refl, Bool, true, false, [], ◌∷◌}
use iam_governance_plugin.Base.Int.{pos}
use iam_governance_plugin.Base.Bytes.{bytes_eq, to_le_bytes, from_le_bytes, as_i64, i64_bits}
use iam_governance_plugin.Buffer.{fill}
use iam_governance_plugin.Tests.Borsh
use iam_governance_plugin.Tests.Borsh.{raw, number, option, write_option}
use iam_governance_plugin.Errors.{Result, ok, err}
use iam_governance_plugin.Solana.{Ledger, Clock}
use iam_governance_plugin.Seeds.{registrar_seeds, voter_weight_record_seeds}
use iam_governance_plugin.Identity.{identity_pda, verification_age}
use iam_governance_plugin.Instructions.CreateRegistrar
use iam_governance_plugin.Instructions.CreateRegistrar.{CreateRegistrar}
use iam_governance_plugin.Instructions.CreateVoterWeightRecord
use iam_governance_plugin.Instructions.CreateVoterWeightRecord.{CreateVoterWeightRecord}
use iam_governance_plugin.Instructions.UpdateVoterWeightRecord
use iam_governance_plugin.Instructions.UpdateVoterWeightRecord.{UpdateVoterWeightRecord}
use iam_governance_plugin.Instructions.CloseVoterWeightRecord
use iam_governance_plugin.Instructions.CloseVoterWeightRecord.{CloseVoterWeightRecord}
use iam_governance_plugin.Instructions.CloseRegistrar
use iam_governance_plugin.Instructions.CloseRegistrar.{CloseRegistrar}
use iam_governance_plugin.Instructions.UpdateRegistrar
use iam_governance_plugin.Instructions.UpdateRegistrar.{UpdateRegistrar}
use iam_governance_plugin.Framework.Laws.{zero_key}
use iam_governance_plugin.Tests.World.{fw, create, close_to, realm_data}
use iam_governance_plugin.Tests.RegistrarCodec
use iam_governance_plugin.Tests.VoterCodec
use iam_governance_plugin.Tests.Sample.{
  governance, realm, authority, mint, payer, voter, info, signing, writing, genesis, registrar_key,
  record_key,
}

abbrev pub create_registrar_ctx : CreateRegistrar
create_registrar_ctx = record {
  registrar = writing registrar_key;
  governance_program_id = info governance;
  realm = info realm;
  governing_token_mint = info mint;
  realm_authority = signing authority;
  payer = signing payer;
  system_program = info zero_key;
}

abbrev pub value_of : Result Ledger → Ledger → Ledger
value_of (ok l) _ = l
value_of (err _) l = l

-- A run that succeeds gives its value.
abbrev pub succeeds : Result Ledger → Bool
succeeds (ok _) = true
succeeds (err _) = false

pub succeeds-ok : (r : Result Ledger) (l : Ledger) → succeeds r ≡ true → r ≡ ok (value_of r l)
succeeds-ok (ok x) l h = refl
succeeds-ok (err e) l h = cc h

-- The ledger with the registrar: a floor of 50 and a window of a day.
unfoldable pub with_registrar : Ledger
unfolding CreateRegistrar.run genesis registrar_key record_key bytes_eq registrar_seeds
    voter_weight_record_seeds create RegistrarCodec.unchecked raw Borsh.key number realm_data fill
    RegistrarCodec.serialize to_le_bytes RegistrarCodec.deserialize VoterCodec.deserialize option
    VoterCodec.serialize write_option from_le_bytes verification_age as_i64 i64_bits
with_registrar =
    value_of (CreateRegistrar.run fw create_registrar_ctx 50 (pos 86400) genesis) genesis

registrar_succeeds :
    succeeds (CreateRegistrar.run fw create_registrar_ctx 50 (pos 86400) genesis) ≡ true
unfolding with_registrar
registrar_succeeds = refl

pub registrar_created :
    CreateRegistrar.run fw create_registrar_ctx 50 (pos 86400) genesis ≡ ok with_registrar
unfolding with_registrar
registrar_created = succeeds-ok _ genesis registrar_succeeds

abbrev pub create_record_ctx : CreateVoterWeightRecord
create_record_ctx = record {
  registrar = info registrar_key;
  voter_weight_record = writing record_key;
  governing_token_owner_signer = signing voter;
  payer = signing payer;
  system_program = info zero_key;
}

-- The ledger with the voter's record, without weight.
unfoldable pub with_record : Ledger
unfolding with_registrar CreateVoterWeightRecord.run
with_record =
    value_of (CreateVoterWeightRecord.run fw create_record_ctx voter with_registrar) with_registrar

record_succeeds :
    succeeds (CreateVoterWeightRecord.run fw create_record_ctx voter with_registrar) ≡ true
unfolding with_record
record_succeeds = refl

pub record_created :
    CreateVoterWeightRecord.run fw create_record_ctx voter with_registrar ≡ ok with_record
unfolding with_record
record_created = succeeds-ok _ with_registrar record_succeeds

abbrev pub update_ctx : UpdateVoterWeightRecord
update_ctx = record {
  registrar = info registrar_key;
  voter_weight_record = writing record_key;
  voter_authority = signing voter;
  remaining_accounts = info (identity_pda fw voter) ∷ [];
}

abbrev pub now : Clock
now = record { unix_timestamp = pos 2000; slot = 5 }

-- The ledger with the record updated at slot 5.
unfoldable pub with_weight : Ledger
unfolding with_record UpdateVoterWeightRecord.run
with_weight = value_of (UpdateVoterWeightRecord.run fw update_ctx (ok now) with_record) with_record

weight_succeeds : succeeds (UpdateVoterWeightRecord.run fw update_ctx (ok now) with_record) ≡ true
unfolding with_weight
weight_succeeds = refl

pub weight_given : UpdateVoterWeightRecord.run fw update_ctx (ok now) with_record ≡ ok with_weight
unfolding with_weight
weight_given = succeeds-ok _ with_record weight_succeeds

abbrev pub close_record_ctx : CloseVoterWeightRecord
close_record_ctx = record {
  registrar = info registrar_key;
  voter_weight_record = writing record_key;
  voter_authority = signing voter;
  sol_destination = writing payer;
}

-- The ledger with the voter's record closed.
unfoldable pub without_record : Ledger
unfolding with_weight CloseVoterWeightRecord.run close_to
without_record = value_of (CloseVoterWeightRecord.run fw close_record_ctx with_weight) with_weight

close_record_succeeds : succeeds (CloseVoterWeightRecord.run fw close_record_ctx with_weight) ≡ true
unfolding without_record
close_record_succeeds = refl

pub record_closed : CloseVoterWeightRecord.run fw close_record_ctx with_weight ≡ ok without_record
unfolding without_record
record_closed = succeeds-ok _ with_weight close_record_succeeds

abbrev pub close_registrar_ctx : CloseRegistrar
close_registrar_ctx = record {
  registrar = writing registrar_key;
  realm = info realm;
  realm_authority = signing authority;
  sol_destination = writing payer;
}

-- The ledger with the registrar closed while the record exists.
unfoldable pub without_registrar : Ledger
unfolding with_weight CloseRegistrar.run close_to
without_registrar = value_of (CloseRegistrar.run fw close_registrar_ctx with_weight) with_weight

close_registrar_succeeds : succeeds (CloseRegistrar.run fw close_registrar_ctx with_weight) ≡ true
unfolding without_registrar
close_registrar_succeeds = refl

pub registrar_closed : CloseRegistrar.run fw close_registrar_ctx with_weight ≡ ok without_registrar
unfolding without_registrar
registrar_closed = succeeds-ok _ with_weight close_registrar_succeeds

abbrev pub update_registrar_ctx : UpdateRegistrar
update_registrar_ctx = record {
  registrar = writing registrar_key;
  realm = info realm;
  realm_authority = signing authority;
}

-- The ledger with the floor raised to 80.
unfoldable pub with_floor : Ledger
unfolding with_registrar UpdateRegistrar.run
with_floor =
    value_of (UpdateRegistrar.run fw update_registrar_ctx 80 (pos 86400) with_registrar)
      with_registrar

floor_succeeds :
    succeeds (UpdateRegistrar.run fw update_registrar_ctx 80 (pos 86400) with_registrar) ≡ true
unfolding with_floor
floor_succeeds = refl

pub floor_raised :
    UpdateRegistrar.run fw update_registrar_ctx 80 (pos 86400) with_registrar ≡ ok with_floor
unfolding with_floor
floor_raised = succeeds-ok _ with_registrar floor_succeeds
