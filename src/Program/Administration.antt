-- ===== src/Program/Administration.antt =====
-- What the instructions of the realm's authority leave in the accounts that they write.
use iam_governance_plugin.Base.{ℕ, ◌≡◌, ◌<◌, refl, sym, ap, ◌∙◌, none, some, true, take, subst}
use iam_governance_plugin.Base.Int.{ℤ, pos, ◌<ℤ◌, IsI64}
use iam_governance_plugin.Base.Bytes.{Bytes}
use iam_governance_plugin.Errors.{ok, ok_or-eq-ok}
use iam_governance_plugin.Solana.{Pubkey, put, Ledger, IsKey}
use iam_governance_plugin.State.{
  id, IsU16, IsU64, Registrar, registrar_len, RegistrarInRange, MaxVoterWeightRecord,
}
use iam_governance_plugin.Framework.{Framework}
use iam_governance_plugin.Framework.Laws.{
  AccountLaws, CodecLaws, zero_registrar, zero_max_voter_weight_record,
}
use iam_governance_plugin.Authority.Laws.{HasAuthority}
use iam_governance_plugin.Governance.Max
use iam_governance_plugin.Anchor.Writes.{IsWritten, written_bytes, written_owner, written_only}
use iam_governance_plugin.Instructions.CreateRegistrar
use iam_governance_plugin.Instructions.CreateRegistrar.{CreateRegistrar}
use iam_governance_plugin.Instructions.CreateMaxVoterWeightRecord
use iam_governance_plugin.Instructions.CreateMaxVoterWeightRecord.{CreateMaxVoterWeightRecord}
use iam_governance_plugin.Instructions.UpdateMaxVoterWeightRecord
use iam_governance_plugin.Instructions.UpdateMaxVoterWeightRecord.{UpdateMaxVoterWeightRecord}
use iam_governance_plugin.Instructions.CreateRegistrar.Outcome as CreatedRegistrar
use iam_governance_plugin.Instructions.CreateMaxVoterWeightRecord.Outcome as CreatedMax
use iam_governance_plugin.Instructions.UpdateMaxVoterWeightRecord.Outcome as UpdatedMax
use iam_governance_plugin.Program.Fresh.{fresh_registrar, fresh_max}
use iam_governance_plugin.Program.Genuine.{IsSound, IsGoodMax}
use iam_governance_plugin.Program.Effects.{registrar_reads}
use iam_governance_plugin.Program.Reads.{ReadsRegistrar, max_tag}
use iam_governance_plugin.Program.Soundness.Maximums.{created-IsGoodMax, updated-IsGoodMax}

-- The account is the program's, bears the discriminator of a max voter weight record, and reads as `m`.
pub record ReadsMax (fw : Framework) (l : Ledger) (k : Pubkey) (m : MaxVoterWeightRecord)
    : Type 0 where
  pub owned : (l k).owner ≡ id
  pub tagged : take 8 (l k).bytes ≡ fw.max_voter_weight_record_discriminator
  pub read : fw.max_voter_weight_record.deserialize (l k).bytes ≡ some m

max_same :
    (fw : Framework) {bytes : Bytes} {m n : MaxVoterWeightRecord}
    → Max.try_deserialize_unchecked fw bytes ≡ ok m
    → fw.max_voter_weight_record.deserialize bytes ≡ some n
    → m ≡ n
unfolding Max.try_deserialize_unchecked
max_same fw h read = cc (ok_or-eq-ok _ _ h, read)

module _ (fw : Framework) (laws : CodecLaws fw) where
  written-ReadsMax :
      {k : Pubkey} {before l' : Ledger} (m : MaxVoterWeightRecord)
      → IsWritten (fw.max_voter_weight_record.serialize m) k before l'
      → (before k).owner ≡ id
      → IsGoodMax fw k m
      → ReadsMax fw l' k m
  written-ReadsMax m w owned good = record {
    owned = written_owner w ∙ owned;
    tagged =
        ap (λ (b : Bytes). take 8 b) (written_bytes w)
        ∙ max_tag fw laws m _ good.range
        ∙ good.tagged;
    read =
        ap fw.max_voter_weight_record.deserialize (written_bytes w)
        ∙ laws.max_round_trip m _ good.range;
  }

module _ (fw : Framework) (account_laws : AccountLaws fw) (laws : CodecLaws fw)
    (l l' : Ledger) where
  -- Under the framework's laws: with arguments in range: a created registrar reads back with the
  -- governance program, realm and mint of the accounts and the floor and window of the arguments.
  -- The window is positive, the address was unused, and the signer is the authority that
  -- spl-governance reports for the realm once the account has been created.
  pub create_registrar_effect :
      (ctx : CreateRegistrar) (floor : ℕ) (window : ℤ)
      → IsKey ctx.governance_program_id.key
      → IsKey ctx.realm.key
      → IsKey ctx.governing_token_mint.key
      → IsU16 floor
      → IsI64 window
      → CreateRegistrar.run fw ctx floor window l ≡ ok l'
      → (created : Ledger) × (fw.create_account ctx.payer.key ctx.registrar.key registrar_len id l
          ≡ ok created)
        × ReadsRegistrar fw l' ctx.registrar.key (record zero_registrar {
          governance_program_id = ctx.governance_program_id.key;
          realm = ctx.realm.key;
          governing_token_mint = ctx.governing_token_mint.key;
          min_trust_score = floor;
          max_verification_age = window;
        })
        × (pos 0 <ℤ window)
        × ((l ctx.registrar.key).owner ≡ fw.system_program)
        × (ctx.realm_authority.is_signer ≡ true)
        × HasAuthority fw ctx.governance_program_id.key ctx.realm ctx.governing_token_mint.key
            ctx.realm_authority.key created
  create_registrar_effect ctx floor window key_g key_r key_m hf hw h =
      let o = CreatedRegistrar.run-Outcome fw ctx floor window l l' h in
      let made = o.accepted.created in
      let zeros =
        fresh_registrar fw account_laws laws _ ctx.payer ctx.registrar l o.created o.fresh made in
      let range : RegistrarInRange (CreatedRegistrar.changed fw ctx floor window zero_registrar) =
        record {
          governance_program_id = key_g;
          realm = key_r;
          governing_token_mint = key_m;
          min_trust_score = hf;
          max_verification_age = hw;
          reserved = refl;
        } in
      let written =
        subst
          (λ x.
            IsWritten (fw.registrar.serialize (CreatedRegistrar.changed fw ctx floor window x))
              ctx.registrar.key o.created l')
          (sym zeros) o.written in
      (
        o.created,
        made.created,
        record {
          owned =
              written_owner written
              ∙ (account_laws.create_account_new ctx.payer.key _ _ id l o.created made.created).0;
          read =
              ap fw.registrar.deserialize (written_bytes written)
              ∙ laws.registrar_round_trip _ _ range;
        },
        o.handled.positive,
        (account_laws.create_account_fresh ctx.payer.key _ _ id l o.created made.created).0,
        o.accepted.signed,
        o.handled.authority,
      )

  -- Under the framework's laws: in a sound ledger: a created max voter weight record reads back as
  -- zero and expired at slot 0, for the registrar's realm and mint; its address was unused.
  pub create_max_voter_weight_record_effect :
      IsSound fw l
      → (ctx : CreateMaxVoterWeightRecord) → CreateMaxVoterWeightRecord.run fw ctx l ≡ ok l'
      → (r : Registrar) × ReadsRegistrar fw l ctx.registrar.key r
        × ReadsMax fw l' ctx.max_voter_weight_record.key (record zero_max_voter_weight_record {
          account_discriminator = fw.max_voter_weight_record_discriminator;
          realm = r.realm;
          governing_token_mint = r.governing_token_mint;
          max_voter_weight_expiry = some 0;
        })
        × ((l ctx.max_voter_weight_record.key).owner ≡ fw.system_program)
  create_max_voter_weight_record_effect sound ctx h =
      let o = CreatedMax.run-Outcome fw ctx l l' h in
      let made = o.accepted.created in
      let good = created-IsGoodMax fw account_laws laws sound ctx o in
      let zeros =
        fresh_max fw account_laws laws _ ctx.payer ctx.max_voter_weight_record l o.created o.fresh
          made in
      let new_owner =
        (account_laws.create_account_new ctx.payer.key _ _ id l o.created made.created).0 in
      (
        o.registrar,
        registrar_reads fw ctx.registrar o.accepted.registrar.loaded,
        subst
            (λ x.
              ReadsMax fw l' ctx.max_voter_weight_record.key
                (CreatedMax.changed fw ctx o.registrar x))
            (sym zeros) (written-ReadsMax fw laws _ o.written new_owner good),
        (account_laws.create_account_fresh ctx.payer.key _ _ id l o.created made.created).0,
      )

  -- Under the framework's laws: in a sound ledger, with a weight in range: an updated max voter
  -- weight record reads back with the positive weight of the argument and without expiry, and is
  -- otherwise what it was; no other account changes.
  pub update_max_voter_weight_record_effect :
      IsSound fw l
      → (ctx : UpdateMaxVoterWeightRecord) (weight : ℕ) (m : MaxVoterWeightRecord) → IsU64 weight
      → ReadsMax fw l ctx.max_voter_weight_record.key m
      → UpdateMaxVoterWeightRecord.run fw ctx weight l ≡ ok l'
      → (0 < weight)
        × ReadsMax fw l' ctx.max_voter_weight_record.key
            (record m { max_voter_weight = weight; max_voter_weight_expiry = none })
        × (l' ≡ put ctx.max_voter_weight_record.key (l' ctx.max_voter_weight_record.key) l)
  update_max_voter_weight_record_effect sound ctx weight m hw reads h =
      let o = UpdatedMax.run-Outcome fw ctx weight l l' h in
      let (good, _) = updated-IsGoodMax fw account_laws laws sound ctx weight hw reads.tagged o in
      let same : o.before ≡ m = max_same fw o.accepted.max_voter_weight_record.read reads.read in
      (
        o.handled.positive,
        subst
            (λ x.
              ReadsMax fw l' ctx.max_voter_weight_record.key (UpdatedMax.changed fw ctx weight x))
            same (written-ReadsMax fw laws _ o.written reads.owned good),
        written_only o.written,
      )
