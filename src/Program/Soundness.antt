-- ===== src/Program/Soundness.antt =====
-- The instructions and the soundness of the ledger.
pub mod Registrars
pub mod Voters
pub mod Maximums
use iam_governance_plugin.Base.{◌≡◌, take}
use iam_governance_plugin.Errors.{Result, ok}
use iam_governance_plugin.Solana.{IsKey, Ledger, Clock}
use iam_governance_plugin.State.{IsU16, IsU64}
use iam_governance_plugin.Base.Int.{IsI64}
use iam_governance_plugin.Framework.{Framework}
use iam_governance_plugin.Framework.Laws.{AccountLaws, CodecLaws}
use iam_governance_plugin.Program.{
  Instruction, create_registrar, update_registrar, create_voter_weight_record,
  update_voter_weight_record, close_registrar, close_voter_weight_record,
  create_max_voter_weight_record, update_max_voter_weight_record, execute,
}
use iam_governance_plugin.Program.Genuine.{IsSound}
use Registrars.{create_registrar-IsSound, update_registrar-IsSound, close_registrar-IsSound}
use Voters.{
  create_voter_weight_record-IsSound, update_voter_weight_record-IsSound,
  close_voter_weight_record-IsSound,
}
use Maximums.{create_max_voter_weight_record-IsSound, update_max_voter_weight_record-IsSound}

-- The arguments are in the ranges of their Rust types.
abbrev pub InRange : Instruction → Type 0
InRange (create_registrar ctx floor window) =
    IsKey ctx.governance_program_id.key
    × IsKey ctx.realm.key
    × IsKey ctx.governing_token_mint.key
    × IsU16 floor
    × IsI64 window
InRange (update_registrar ctx floor window) = IsU16 floor × IsI64 window
InRange (create_voter_weight_record ctx token_owner) = IsKey token_owner
InRange (update_max_voter_weight_record ctx weight) = IsU64 weight
InRange _ = Unit

-- A record that is passed for an update begins with the discriminator of its type. The program does
-- not check this.
abbrev pub IsTagged : Framework → Ledger → Instruction → Type 0
IsTagged fw l (update_voter_weight_record ctx) =
    take 8 (l ctx.voter_weight_record.key).bytes ≡ fw.voter_weight_record_discriminator
IsTagged fw l (update_max_voter_weight_record ctx weight) =
    take 8 (l ctx.max_voter_weight_record.key).bytes ≡ fw.max_voter_weight_record_discriminator
IsTagged fw l _ = Unit

module _ (fw : Framework) (account_laws : AccountLaws fw) (laws : CodecLaws fw) where
  -- Under the framework's laws: an instruction with arguments in the ranges of their types, on
  -- records tagged as their types, keeps the ledger sound, whatever the clock reads.
  pub execute-IsSound :
      (clock : Result Clock) (i : Instruction) (l l' : Ledger)
      → IsSound fw l
      → InRange i
      → IsTagged fw l i
      → execute fw clock i l ≡ ok l'
      → IsSound fw l'
  unfolding execute
  execute-IsSound clock (create_registrar ctx floor window) l l' s r t h =
      create_registrar-IsSound fw account_laws laws s ctx floor window r.0 r.1 r.2 r.3 r.4 h
  execute-IsSound clock (update_registrar ctx floor window) l l' s r t h =
      update_registrar-IsSound fw account_laws laws s ctx floor window r.0 r.1 h
  execute-IsSound clock (create_voter_weight_record ctx token_owner) l l' s r t h =
      create_voter_weight_record-IsSound fw account_laws laws s ctx token_owner r h
  execute-IsSound clock (update_voter_weight_record ctx) l l' s r t h =
      update_voter_weight_record-IsSound fw account_laws laws s ctx clock t h
  execute-IsSound clock (close_registrar ctx) l l' s r t h =
      close_registrar-IsSound fw account_laws laws s ctx h
  execute-IsSound clock (close_voter_weight_record ctx) l l' s r t h =
      close_voter_weight_record-IsSound fw account_laws laws s ctx h
  execute-IsSound clock (create_max_voter_weight_record ctx) l l' s r t h =
      create_max_voter_weight_record-IsSound fw account_laws laws s ctx h
  execute-IsSound clock (update_max_voter_weight_record ctx weight) l l' s r t h =
      update_max_voter_weight_record-IsSound fw account_laws laws s ctx weight r t h
