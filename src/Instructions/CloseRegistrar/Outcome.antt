-- ===== src/Instructions/CloseRegistrar/Outcome.antt =====
-- What a successful closing of a registrar has checked and done.
use iam_governance_plugin.Base.{◌≢◌, ◌≡◌, true}
use iam_governance_plugin.Errors.{ok, >>=-eq-ok, require-eq-ok}
use iam_governance_plugin.Solana.{key_eq→eq, key_ne, Ledger}
use iam_governance_plugin.State.{id, Registrar}
use iam_governance_plugin.Framework.{Framework}
use iam_governance_plugin.Anchor.{registrar_try_deserialize}
use iam_governance_plugin.Anchor.Laws.{account-IsLoaded}
use iam_governance_plugin.Anchor.Registrars.{IsRegistrar}
use iam_governance_plugin.Authority.{require_realm_authority}
use iam_governance_plugin.Authority.Laws.{HasAuthority, require_realm_authority_iff}
use iam_governance_plugin.Instructions.CloseRegistrar.{
  CloseRegistrar, accounts, close_registrar, run,
}

-- The accounts struct accepts these accounts, with this registrar.
pub record AreAccepted (fw : Framework) (ctx : CloseRegistrar) (l : Ledger) (r : Registrar)
    : Type 0 where
  pub registrar : IsRegistrar fw ctx.registrar l r
  pub signed : ctx.realm_authority.is_signer ≡ true
  pub writable : ctx.registrar.is_writable ≡ true
  pub distinct : ctx.registrar.key ≢ ctx.sol_destination.key
  pub realm : ctx.realm.key ≡ r.realm
  pub destination_writable : ctx.sol_destination.is_writable ≡ true

accounts-AreAccepted :
    (fw : Framework) (ctx : CloseRegistrar) (l : Ledger) (r₁ : Registrar)
    → accounts fw ctx l ≡ ok r₁
    → AreAccepted fw ctx l r₁
unfolding accounts
accounts-AreAccepted fw ctx l r₁ h =
    let (r, loaded, h₁) = >>=-eq-ok _ _ h in
    let (signed, h₂) = require-eq-ok _ _ _ h₁ in
    let (address, h₃) = require-eq-ok _ _ _ h₂ in
    let (writable, h₄) = require-eq-ok _ _ _ h₃ in
    let (distinct, h₅) = require-eq-ok _ _ _ h₄ in
    let (realm, h₆) = require-eq-ok _ _ _ h₅ in
    let (destination_writable, h₇) = require-eq-ok _ _ _ h₆ in
    let same : r ≡ r₁ = cc h₇ in
    rw (← same) (record {
      registrar = record {
        loaded = account-IsLoaded fw id (registrar_try_deserialize fw) ctx.registrar l r loaded;
        address = key_eq→eq _ _ address;
      };
      signed = signed;
      writable = writable;
      distinct = key_ne _ _ distinct;
      realm = key_eq→eq _ _ realm;
      destination_writable = destination_writable;
    })

close_registrar_lem :
    (fw : Framework) (ctx : CloseRegistrar) (r : Registrar) (l : Ledger)
    → close_registrar fw ctx r l ≡ ok tt
    → require_realm_authority fw r.governance_program_id ctx.realm r.governing_token_mint
        ctx.realm_authority l
      ≡ ok tt
unfolding close_registrar
close_registrar_lem fw ctx r l h = h

module _ (fw : Framework) (ctx : CloseRegistrar) where
  pub record Outcome (l l' : Ledger) : Type 0 where
    pub before : Registrar
    pub accepted : AreAccepted fw ctx l before
    pub authority :
        HasAuthority fw before.governance_program_id ctx.realm before.governing_token_mint
          ctx.realm_authority.key l
    pub closed : fw.close ctx.registrar.key ctx.sol_destination.key l ≡ ok l'

  pub run-Outcome : (l l' : Ledger) → run fw ctx l ≡ ok l' → Outcome l l'
  unfolding run
  run-Outcome l l' h =
      let (r, accepted, h₁) = >>=-eq-ok (accounts fw ctx l) _ h in
      let (_, handled, h₂) = >>=-eq-ok (close_registrar fw ctx r l) _ h₁ in
      record {
        before = r;
        accepted = accounts-AreAccepted fw ctx l r accepted;
        authority =
            (require_realm_authority_iff fw _ ctx.realm _ ctx.realm_authority l).0
              (close_registrar_lem fw ctx r l handled);
        closed = h₂;
      }
