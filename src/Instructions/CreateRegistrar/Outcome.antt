-- ===== src/Instructions/CreateRegistrar/Outcome.antt =====
-- What a successful creation of a registrar has checked and done.
use iam_governance_plugin.Base.{ℕ, ◌≡◌, true}
use iam_governance_plugin.Base.Int.{ℤ, pos, ◌<ℤ◌, ltb_ℤ_iff}
use iam_governance_plugin.Errors.{anchor, account_did_not_serialize, ok, >>=-eq-ok, require-eq-ok}
use iam_governance_plugin.Solana.{key_eq→eq, Ledger}
use iam_governance_plugin.State.{id, Registrar, registrar_len}
use iam_governance_plugin.Framework.{Framework}
use iam_governance_plugin.Seeds.{registrar_seeds}
use iam_governance_plugin.Anchor.{registrar_try_deserialize_unchecked}
use iam_governance_plugin.Anchor.Laws.{IsCreated, init-IsCreated}
use iam_governance_plugin.Anchor.Writes.{IsWritten, exit-IsWritten}
use iam_governance_plugin.Authority.{require_realm_authority}
use iam_governance_plugin.Authority.Laws.{HasAuthority, require_realm_authority_iff}
use iam_governance_plugin.Instructions.CreateRegistrar.{
  CreateRegistrar, accounts, create_registrar, run,
}

-- The accounts struct accepts these accounts: the registrar is created, which leads to `l'`.
pub record AreAccepted (fw : Framework) (ctx : CreateRegistrar) (l : Ledger) (fresh : Registrar)
    (l' : Ledger) : Type 0 where
  pub signed : ctx.realm_authority.is_signer ≡ true
  pub payer_signed : ctx.payer.is_signer ≡ true
  pub system_program : ctx.system_program.key ≡ fw.system_program
  pub created :
      IsCreated fw id
        (registrar_try_deserialize_unchecked fw)
        (registrar_seeds ctx.realm.key ctx.governing_token_mint.key)
        registrar_len
        ctx.payer
        ctx.registrar
        l
        fresh
        l'
  pub executable : (l' ctx.governance_program_id.key).executable ≡ true
  pub realm_owner : (l' ctx.realm.key).owner ≡ ctx.governance_program_id.key
  pub payer_writable : ctx.payer.is_writable ≡ true

accounts-AreAccepted :
    (fw : Framework) (ctx : CreateRegistrar) (l : Ledger) (made : Registrar × Ledger)
    → accounts fw ctx l ≡ ok made
    → AreAccepted fw ctx l made.0 made.1
unfolding accounts
accounts-AreAccepted fw ctx l made h =
    let (signed, h₁) = require-eq-ok _ _ _ h in
    let (payer_signed, h₂) = require-eq-ok _ _ _ h₁ in
    let (system_program, h₃) = require-eq-ok _ _ _ h₂ in
    let (m, created, h₄) = >>=-eq-ok _ _ h₃ in
    let (executable, h₅) = require-eq-ok _ _ _ h₄ in
    let (realm_owner, h₆) = require-eq-ok _ _ _ h₅ in
    let (payer_writable, h₇) = require-eq-ok _ _ _ h₆ in
    let same : m ≡ made = cc h₇ in
    rw (← same) (record {
      signed = signed;
      payer_signed = payer_signed;
      system_program = key_eq→eq _ _ system_program;
      created = init-IsCreated fw id (registrar_try_deserialize_unchecked fw) _ _ _ _ l m created;
      executable = executable;
      realm_owner = key_eq→eq _ _ realm_owner;
      payer_writable = payer_writable;
    })

module _ (fw : Framework) (ctx : CreateRegistrar) (floor : ℕ) (window : ℤ) where
  -- The registrar that the handler leaves.
  abbrev pub changed : Registrar → Registrar
  changed r = record r {
    governance_program_id = ctx.governance_program_id.key;
    realm = ctx.realm.key;
    governing_token_mint = ctx.governing_token_mint.key;
    min_trust_score = floor;
    max_verification_age = window;
  }

  pub record IsHandled (l : Ledger) : Type 0 where
    pub positive : pos 0 <ℤ window
    pub authority :
        HasAuthority fw ctx.governance_program_id.key ctx.realm ctx.governing_token_mint.key
          ctx.realm_authority.key l

  create_registrar-IsHandled :
      (r r' : Registrar) (l : Ledger)
      → create_registrar fw ctx floor window r l ≡ ok r'
      → IsHandled l × (changed r ≡ r')
  unfolding create_registrar
  create_registrar-IsHandled r r' l h =
      let (positive, h₁) = require-eq-ok _ _ _ h in
      let (_, authority, h₂) =
        >>=-eq-ok
          (require_realm_authority fw ctx.governance_program_id.key ctx.realm
            ctx.governing_token_mint.key ctx.realm_authority l)
          _ h₁ in
      (
        record {
          positive = (ltb_ℤ_iff (pos 0) window).0 positive;
          authority =
              (require_realm_authority_iff fw _ ctx.realm _ ctx.realm_authority l).0 authority;
        },
        cc h₂,
      )

  pub record Outcome (l l' : Ledger) : Type 0 where
    pub fresh : Registrar
    pub created : Ledger
    pub accepted : AreAccepted fw ctx l fresh created
    pub handled : IsHandled created
    pub written : IsWritten (fw.registrar.serialize (changed fresh)) ctx.registrar.key created l'

  pub run-Outcome : (l l' : Ledger) → run fw ctx floor window l ≡ ok l' → Outcome l l'
  unfolding run
  run-Outcome l l' h =
      let (m, accepted, h₁) = >>=-eq-ok (accounts fw ctx l) _ h in
      let (r', handled, h₂) = >>=-eq-ok (create_registrar fw ctx floor window m.0 m.1) _ h₁ in
      let (done, same) = create_registrar-IsHandled m.0 r' m.1 handled in
      record {
        fresh = m.0;
        created = m.1;
        accepted = accounts-AreAccepted fw ctx l m accepted;
        handled = done;
        written = rw same (
            exit-IsWritten (fw.registrar.serialize r') (anchor account_did_not_serialize)
              ctx.registrar m.1 l' h₂);
      }
