-- ===== src/Tests/Facts.antt =====
-- What the sample ledgers hold, and that they are reached.
use iam_governance_plugin.Base.{
  ◌≡◌, ◌≢◌, refl, ap, Bool-cases, none, some, replicate, arith, inl, inr, leb→le,
}
use iam_governance_plugin.Base.Int.{pos, ◌<ℤ◌}
use iam_governance_plugin.Errors.{ok}
use iam_governance_plugin.Solana.{Pubkey, key_eq, Account, Ledger, put}
use iam_governance_plugin.State.{id, Registrar, VoterWeightRecord}
use iam_governance_plugin.Anchor.{registrar_try_deserialize}
use iam_governance_plugin.Anchor.Registrars.{IsRegistrar}
use iam_governance_plugin.Identity.{IdentityFields, identity_pda, verification_age}
use iam_governance_plugin.Identity.Reading.{IsIdentity}
use iam_governance_plugin.Program.{
  create_registrar, create_voter_weight_record, update_voter_weight_record, execute,
}
use iam_governance_plugin.Program.Genuine.{IsSound}
use iam_governance_plugin.Program.Reads.{ReadsVoter, ReadsRegistrar}
use iam_governance_plugin.Program.Liveness.{IsReady}
use iam_governance_plugin.Program.Soundness.{InRange}
use iam_governance_plugin.Program.Reach.{AreTagged, Reach, start, next, instruction, Reach-IsSound}
use iam_governance_plugin.Tests.VoterCodec
use iam_governance_plugin.Tests.World.{fw, account_laws, codec_laws}
use iam_governance_plugin.Tests.Sample.{
  governance, realm, mint, voter, info, genesis, registrar_key, record_key,
}
use iam_governance_plugin.Tests.History.{
  create_registrar_ctx, create_record_ctx, update_ctx, now, with_registrar, with_record,
  with_weight, registrar_created, record_created, weight_given,
}

abbrev pub sample_registrar : Registrar
sample_registrar = record {
  governance_program_id = governance;
  realm = realm;
  governing_token_mint = mint;
  min_trust_score = 50;
  max_verification_age = pos 86400;
  reserved = replicate 64 0;
}

abbrev pub idle_record : VoterWeightRecord
idle_record = record {
  account_discriminator = VoterCodec.tag;
  realm = realm;
  governing_token_mint = mint;
  governing_token_owner = voter;
  voter_weight = 0;
  voter_weight_expiry = some 0;
  weight_action = none;
  weight_action_target = none;
  reserved = replicate 8 0;
}

abbrev pub voting_record : VoterWeightRecord
voting_record = record idle_record { voter_weight = 1; voter_weight_expiry = some 105 }

pub registrar_reads_back : ReadsRegistrar fw with_registrar registrar_key sample_registrar
unfolding with_registrar
registrar_reads_back = record { owned = refl; read = refl }

pub idle_record_reads_back : ReadsVoter fw with_record record_key idle_record
unfolding with_record
idle_record_reads_back = record { owned = refl; tagged = refl; read = refl }

pub voting_record_reads_back : ReadsVoter fw with_weight record_key voting_record
unfolding with_weight
voting_record_reads_back = record { owned = refl; tagged = refl; read = refl }

put-ne_id :
    (k : Pubkey) (a : Account) (l : Ledger)
    → a.owner ≢ id
    → ((j : Pubkey) → (l j).owner ≢ id)
    → (j : Pubkey) → (put k a l j).owner ≢ id
unfolding put
put-ne_id k a l h rest j = elim (Bool-cases (key_eq k j)) [
  | inl same ↦ rw same h
  | inr other ↦ rw other (rest j)
]

key_ne_id : (k : Pubkey) → k.bytes ≢ id.bytes → k ≢ id
key_ne_id k h e = h (ap (λ x. x.bytes) e)

pub genesis_owns_none : (k : Pubkey) → (genesis k).owner ≡ id → ⊥
unfolding genesis
genesis_owns_none = put-ne_id _ _ _ (key_ne_id _ (λ e. ground arith)) (
    put-ne_id _ _ _ (key_ne_id _ (λ e. ground arith))
      (put-ne_id _ _ _ (key_ne_id _ (λ e. ground arith)) (λ j. key_ne_id _ (λ e. ground arith))))

pub registrar_executed :
    execute fw (ok now) (create_registrar create_registrar_ctx 50 (pos 86400)) genesis
    ≡ ok with_registrar
unfolding execute
registrar_executed = registrar_created

pub record_executed :
    execute fw (ok now) (create_voter_weight_record create_record_ctx voter) with_registrar
    ≡ ok with_record
unfolding execute
record_executed = record_created

pub weight_executed :
    execute fw (ok now) (update_voter_weight_record update_ctx) with_record ≡ ok with_weight
unfolding execute
weight_executed = weight_given

abbrev pub genesis_reached : Reach fw genesis
genesis_reached = start genesis_owns_none

pub create_registrar-InRange : InRange (create_registrar create_registrar_ctx 50 (pos 86400))
create_registrar-InRange = (refl, refl, refl, ground arith, ground arith)

abbrev pub registrar_reached : Reach fw with_registrar
registrar_reached = next genesis_reached (
    instruction (ok now) (create_registrar create_registrar_ctx 50 (pos 86400))
      create_registrar-InRange registrar_executed)

pub registrar_tagged : AreTagged fw registrar_reached
registrar_tagged = (tt, tt)

abbrev pub record_reached : Reach fw with_record
record_reached =
    next registrar_reached (
      instruction (ok now) (create_voter_weight_record create_record_ctx voter) refl
        record_executed)

pub record_tagged : AreTagged fw record_reached
record_tagged = (registrar_tagged, tt)

abbrev pub weight_reached : Reach fw with_weight
weight_reached =
    next record_reached
      (instruction (ok now) (update_voter_weight_record update_ctx) tt weight_executed)

pub weight_tagged : AreTagged fw weight_reached
weight_tagged = (record_tagged, idle_record_reads_back.tagged)

pub genesis-IsSound : IsSound fw genesis
genesis-IsSound = Reach-IsSound fw account_laws codec_laws genesis_reached tt

pub registrar-IsSound : IsSound fw with_registrar
registrar-IsSound = Reach-IsSound fw account_laws codec_laws registrar_reached registrar_tagged

pub record-IsSound : IsSound fw with_record
record-IsSound = Reach-IsSound fw account_laws codec_laws record_reached record_tagged

abbrev pub identity_fields : IdentityFields
identity_fields = record { last_verification_timestamp = pos 1000; trust_score = 70 }

pub sample-IsIdentity :
    IsIdentity fw voter update_ctx.remaining_accounts with_record identity_fields
unfolding with_record
sample-IsIdentity = record {
  info = info (identity_pda fw voter);
  listed = refl;
  owned = refl;
  address = refl;
  content = record { long = leb→le _ _ refl; tagged = refl; timestamp = refl; score = refl };
}

sample_loaded : IsRegistrar fw (info registrar_key) with_record sample_registrar
unfolding with_record registrar_try_deserialize
sample_loaded = record {
  loaded = record { live = refl; owned = refl; read = refl };
  address = refl;
}

sample_recent : verification_age (pos 2000) (pos 1000) <ℤ pos 86400
unfolding verification_age
sample_recent = ground arith

pub sample-IsReady : IsReady fw update_ctx (ok now) with_record sample_registrar idle_record now
sample-IsReady = record {
  registrar = sample_loaded;
  voter_weight_record = idle_record_reads_back;
  signed = refl;
  writable = refl;
  record_realm = refl;
  record_mint = refl;
  handled = record {
    mine = refl;
    identity = identity_fields;
    is_identity = sample-IsIdentity;
    clock_read = refl;
    eligible = record { trusted = omega arith; recent = sample_recent };
  };
}
