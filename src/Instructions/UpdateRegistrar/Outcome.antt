-- ===== src/Instructions/UpdateRegistrar/Outcome.antt =====
-- What a successful update of a registrar has checked and done.
use iam_governance_plugin.Base.{ℕ, ◌≡◌, true}
use iam_governance_plugin.Base.Int.{ℤ, pos, ◌<ℤ◌, ltb_ℤ_iff}
use iam_governance_plugin.Errors.{anchor, account_did_not_serialize, ok, >>=-eq-ok, require-eq-ok}
use iam_governance_plugin.Solana.{key_eq→eq, Ledger}
use iam_governance_plugin.State.{id, Registrar}
use iam_governance_plugin.Framework.{Framework}
use iam_governance_plugin.Anchor.{registrar_try_deserialize}
use iam_governance_plugin.Anchor.Laws.{account-IsLoaded}
use iam_governance_plugin.Anchor.Writes.{IsWritten, exit-IsWritten}
use iam_governance_plugin.Anchor.Registrars.{IsRegistrar}
use iam_governance_plugin.Authority.{require_realm_authority}
use iam_governance_plugin.Authority.Laws.{HasAuthority, require_realm_authority_iff}
use iam_governance_plugin.Instructions.UpdateRegistrar.{
  UpdateRegistrar, accounts, update_registrar, run,
}

-- The accounts struct accepts these accounts, with this registrar.
pub record AreAccepted (fw : Framework) (ctx : UpdateRegistrar) (l : Ledger) (r : Registrar)
    : Type 0 where
  pub registrar : IsRegistrar fw ctx.registrar l r
  pub signed : ctx.realm_authority.is_signer ≡ true
  pub writable : ctx.registrar.is_writable ≡ true
  pub realm : ctx.realm.key ≡ r.realm

accounts-AreAccepted :
    (fw : Framework) (ctx : UpdateRegistrar) (l : Ledger) (r : Registrar)
    → accounts fw ctx l ≡ ok r
    → AreAccepted fw ctx l r
unfolding accounts
accounts-AreAccepted fw ctx l r h =
    let (r₁, loaded, h₁) = >>=-eq-ok _ _ h in
    let (signed, h₂) = require-eq-ok _ _ _ h₁ in
    let (address, h₃) = require-eq-ok _ _ _ h₂ in
    let (writable, h₄) = require-eq-ok _ _ _ h₃ in
    let (realm, h₅) = require-eq-ok _ _ _ h₄ in
    let same : r₁ ≡ r = cc h₅ in
    rw (← same) (record {
      registrar = record {
        loaded = account-IsLoaded fw id (registrar_try_deserialize fw) ctx.registrar l r₁ loaded;
        address = key_eq→eq _ _ address;
      };
      signed = signed;
      writable = writable;
      realm = key_eq→eq _ _ realm;
    })

module _ (fw : Framework) (ctx : UpdateRegistrar) (floor : ℕ) (window : ℤ) where
  -- The registrar that the handler leaves.
  abbrev pub changed : Registrar → Registrar
  changed r = record r { min_trust_score = floor; max_verification_age = window }

  pub record IsHandled (r : Registrar) (l : Ledger) : Type 0 where
    pub positive : pos 0 <ℤ window
    pub authority :
        HasAuthority fw r.governance_program_id ctx.realm r.governing_token_mint
          ctx.realm_authority.key l

  update_registrar-IsHandled :
      (r r' : Registrar) (l : Ledger)
      → update_registrar fw ctx floor window r l ≡ ok r'
      → IsHandled r l × (changed r ≡ r')
  unfolding update_registrar
  update_registrar-IsHandled r r' l h =
      let (positive, h₁) = require-eq-ok _ _ _ h in
      let (_, authority, h₂) =
        >>=-eq-ok
          (require_realm_authority fw r.governance_program_id ctx.realm r.governing_token_mint
            ctx.realm_authority l)
          _ h₁ in
      (
        record {
          positive = (ltb_ℤ_iff (pos 0) window).0 positive;
          authority =
              (require_realm_authority_iff fw _ ctx.realm _ ctx.realm_authority l).0 authority;
        },
        cc h₂,
      )

  pub record Outcome (l l' : Ledger) : Type 0 where
    pub before : Registrar
    pub accepted : AreAccepted fw ctx l before
    pub handled : IsHandled before l
    pub written : IsWritten (fw.registrar.serialize (changed before)) ctx.registrar.key l l'

  pub run-Outcome : (l l' : Ledger) → run fw ctx floor window l ≡ ok l' → Outcome l l'
  unfolding run
  run-Outcome l l' h =
      let (r, accepted, h₁) = >>=-eq-ok (accounts fw ctx l) _ h in
      let (r', handled, h₂) = >>=-eq-ok (update_registrar fw ctx floor window r l) _ h₁ in
      let (done, same) = update_registrar-IsHandled r r' l handled in
      record {
        before = r;
        accepted = accounts-AreAccepted fw ctx l r accepted;
        handled = done;
        written = rw same (
            exit-IsWritten (fw.registrar.serialize r') (anchor account_did_not_serialize)
              ctx.registrar l l' h₂);
      }
