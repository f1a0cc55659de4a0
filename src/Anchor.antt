-- ===== src/Anchor.antt =====
-- The account types and attributes that the accounts structs use, as checks with the errors that
-- Anchor documents for them: `Signer`, `Program`, `Account`, `mut`, `seeds`, `constraint`, `owner`,
-- `executable`, `init` and `close`, and the write of a changed account when an instruction ends.
pub mod Laws
pub mod Writes
pub mod Registrars
use iam_governance_plugin.Base.{ℕ, Bool, true, false, ◌&&◌, ◌==◌, List}
use mathlib.Core.Bool.{not}
use iam_governance_plugin.Base.Bytes.{Bytes}
use iam_governance_plugin.Errors.{
  Error, entros, anchor, account_not_initialized, account_owned_by_wrong_program,
  account_did_not_deserialize, account_did_not_serialize, account_not_signer, invalid_program_id,
  constraint_mut, constraint_seeds, constraint_raw, constraint_owner, constraint_executable,
  constraint_close, Result, ok, err, ok_or, require, ◌>>=◌, ◌>>◌,
}
use iam_governance_plugin.Solana.{Pubkey, key_eq, Account, Ledger, put, AccountInfo}
use iam_governance_plugin.State.{id, Registrar}
use iam_governance_plugin.Framework.{Framework}
use iam_governance_plugin.Seeds.{derived, registrar_seeds}
use iam_governance_plugin.Buffer.{fill}

-- `Signer<'info>`
abbrev pub signer : AccountInfo → Result (Unit {0})
signer info = require info.is_signer (anchor account_not_signer)

-- `Program<'info, T>`
abbrev pub program : Pubkey → AccountInfo → Result (Unit {0})
program address info = require (key_eq info.key address) (anchor invalid_program_id)

-- `#[account(mut)]`
abbrev pub mutable : AccountInfo → Result (Unit {0})
mutable info = require info.is_writable (anchor constraint_mut)

-- `#[account(executable)]`
abbrev pub executable : AccountInfo → Ledger → Result (Unit {0})
executable info l = require (l info.key).executable (anchor constraint_executable)

-- `#[account(owner = address)]`
abbrev pub owned_by : Pubkey → AccountInfo → Ledger → Result (Unit {0})
owned_by address info l = require (key_eq (l info.key).owner address) (anchor constraint_owner)

-- `#[account(constraint = test)]`
abbrev pub constraint : Bool → Result (Unit {0})
constraint test = require test (anchor constraint_raw)

-- `#[account(seeds = seeds, bump)]`
abbrev pub seeded : Framework → List Bytes → AccountInfo → Result (Unit {0})
seeded fw seeds info = require (key_eq info.key (derived fw seeds)) (anchor constraint_seeds)

-- `Account<'info, T>`, by the owner and the deserialiser of `T`.
unfoldable pub account :
    {A : Type 0} → Framework → Pubkey → (Bytes → Result A) → AccountInfo → Ledger → Result A
account fw owner try_deserialize info l = do
  let a = l info.key
  require (not (key_eq a.owner fw.system_program && (a.lamports == 0)))
      (anchor account_not_initialized)
  require (key_eq a.owner owner) (anchor account_owned_by_wrong_program)
  try_deserialize a.bytes

-- `#[account(init, seeds = seeds, bump, payer = payer, space = space)]`: the new account is read
-- back without a check of its discriminator.
unfoldable pub init :
    {A : Type 0}
    → Framework
    → Pubkey
    → (Bytes → Result A)
    → List Bytes
    → ℕ
    → AccountInfo
    → AccountInfo
    → Ledger
    → Result (A × Ledger)
init fw owner try_deserialize_unchecked seeds space payer info l = do
  seeded fw seeds info
  l' ← fw.create_account payer.key info.key space owner l
  fresh ← try_deserialize_unchecked (l' info.key).bytes
  mutable info
  ok (fresh, l')

-- The check that `#[account(close = destination)]` makes before the handler runs.
abbrev pub closable : AccountInfo → AccountInfo → Result (Unit {0})
closable info destination =
    require (not (key_eq info.key destination.key)) (anchor constraint_close)

-- The write of a changed account when the instruction ends.
unfoldable pub exit : (Bytes → Result Bytes) → AccountInfo → Ledger → Result Ledger
exit try_serialize info l = do
  let a = l info.key
  bytes ← try_serialize a.bytes
  ok (put info.key (record a { bytes = bytes }) l)

-- What `#[account]` derives for `Registrar`. Anchor's errors for a wrong discriminator and for
-- unreadable fields are one here.
unfoldable pub registrar_try_deserialize : Framework → Bytes → Result Registrar
registrar_try_deserialize fw bytes =
    ok_or (fw.registrar.deserialize bytes) (anchor account_did_not_deserialize)

unfoldable pub registrar_try_deserialize_unchecked : Framework → Bytes → Result Registrar
registrar_try_deserialize_unchecked fw bytes =
    ok_or (fw.registrar_unchecked bytes) (anchor account_did_not_deserialize)

unfoldable pub registrar_try_serialize : Framework → Registrar → Bytes → Result Bytes
registrar_try_serialize fw r bytes =
    ok_or (fill (fw.registrar.serialize r) bytes) (anchor account_did_not_serialize)
