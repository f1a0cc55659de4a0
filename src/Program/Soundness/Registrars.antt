-- ===== src/Program/Soundness/Registrars.antt =====
-- The three instructions on registrars keep the ledger sound.
use iam_governance_plugin.Base.{◌≤◌, ℕ, ◌≡◌, refl, sym, ap, length, arith}
use iam_governance_plugin.Base.Int.{ℤ, IsI64}
use iam_governance_plugin.Errors.{ok}
use iam_governance_plugin.Solana.{IsKey, Ledger}
use iam_governance_plugin.State.{registrar_len, IsU16}
use iam_governance_plugin.Framework.{Framework}
use iam_governance_plugin.Framework.Laws.{AccountLaws, CodecLaws}
use iam_governance_plugin.Instructions.CreateRegistrar
use iam_governance_plugin.Instructions.CreateRegistrar.{CreateRegistrar}
use iam_governance_plugin.Instructions.UpdateRegistrar
use iam_governance_plugin.Instructions.UpdateRegistrar.{UpdateRegistrar}
use iam_governance_plugin.Instructions.CloseRegistrar
use iam_governance_plugin.Instructions.CloseRegistrar.{CloseRegistrar}
use iam_governance_plugin.Instructions.CreateRegistrar.Outcome as CreatedRegistrar
use iam_governance_plugin.Instructions.UpdateRegistrar.Outcome as UpdatedRegistrar
use iam_governance_plugin.Instructions.CloseRegistrar.Outcome as ClosedRegistrar
use iam_governance_plugin.Program.Genuine.{IsGoodRegistrar, registrar, IsSound}
use iam_governance_plugin.Program.Reads.{loaded_registrar}
use iam_governance_plugin.Program.Fresh.{fresh_registrar}
use iam_governance_plugin.Program.Preserve.{IsSound-IsWritten, IsSound-create, IsSound-close}

module _ (fw : Framework) (account_laws : AccountLaws fw) (laws : CodecLaws fw) {l l' : Ledger}
    (sound : IsSound fw l) where
  pub create_registrar-IsSound :
      (ctx : CreateRegistrar) (floor : ℕ) (window : ℤ)
      → IsKey ctx.governance_program_id.key
      → IsKey ctx.realm.key
      → IsKey ctx.governing_token_mint.key
      → IsU16 floor
      → IsI64 window
      → CreateRegistrar.run fw ctx floor window l ≡ ok l'
      → IsSound fw l'
  create_registrar-IsSound ctx floor window key_g key_r key_m hf hw h =
      let o = CreatedRegistrar.run-Outcome fw ctx floor window l l' h in
      let made = o.accepted.created in
      let zeros =
        fresh_registrar fw account_laws laws _ ctx.payer ctx.registrar l o.created o.fresh made in
      IsSound-create fw account_laws ctx.payer.key _ sound made.created o.written (λ rest size.
        registrar (CreatedRegistrar.changed fw ctx floor window o.fresh) rest (omega arith) refl
          (record {
            range = record {
              governance_program_id = key_g;
              realm = key_r;
              governing_token_mint = key_m;
              min_trust_score = hf;
              max_verification_age = hw;
              reserved = sym (ap (λ r. length r.reserved) zeros);
            };
            address = made.address;
            positive = o.handled.positive;
          }))

  pub updated-IsGoodRegistrar :
      (ctx : UpdateRegistrar) (floor : ℕ) (window : ℤ)
      → IsU16 floor
      → IsI64 window
      → (o : UpdatedRegistrar.Outcome fw ctx floor window l l')
      → IsGoodRegistrar fw ctx.registrar.key (UpdatedRegistrar.changed fw ctx floor window o.before)
        × (registrar_len ≤ length (l ctx.registrar.key).bytes)
  updated-IsGoodRegistrar ctx floor window hf hw o =
      let (good, room) =
        loaded_registrar fw laws l sound ctx.registrar o.before o.accepted.registrar.loaded in
      (
        record {
          range = record {
            governance_program_id = good.range.governance_program_id;
            realm = good.range.realm;
            governing_token_mint = good.range.governing_token_mint;
            min_trust_score = hf;
            max_verification_age = hw;
            reserved = good.range.reserved;
          };
          address = good.address;
          positive = o.handled.positive;
        },
        room,
      )

  pub update_registrar-IsSound :
      (ctx : UpdateRegistrar) (floor : ℕ) (window : ℤ)
      → IsU16 floor
      → IsI64 window
      → UpdateRegistrar.run fw ctx floor window l ≡ ok l'
      → IsSound fw l'
  update_registrar-IsSound ctx floor window hf hw h =
      let o = UpdatedRegistrar.run-Outcome fw ctx floor window l l' h in
      let (good, room) = updated-IsGoodRegistrar ctx floor window hf hw o in
      IsSound-IsWritten fw sound o.written (λ rest size. registrar _ rest (omega arith) refl good)

  pub close_registrar-IsSound :
      (ctx : CloseRegistrar) → CloseRegistrar.run fw ctx l ≡ ok l' → IsSound fw l'
  close_registrar-IsSound ctx h =
      let o = ClosedRegistrar.run-Outcome fw ctx l l' h in
      IsSound-close fw account_laws _ _ sound o.closed o.accepted.distinct
