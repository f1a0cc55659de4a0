-- ===== src/Authority/Laws.antt =====
-- When the check of the realm's authority passes.
use iam_governance_plugin.Base.{◌≡◌, refl, ◌∙◌, ap, ◌↔◌, some}
use iam_governance_plugin.Errors.{ok, >>=-eq-ok, ok_or-eq-ok, require-eq-ok_last}
use iam_governance_plugin.Solana.{Pubkey, key_eq→eq, key_eq_iff, Ledger, AccountInfo}
use iam_governance_plugin.Framework.{Framework, RealmData}
use iam_governance_plugin.Authority.{require_realm_authority}

-- spl-governance finds the realm under the program and with the mint, and names this authority.
pub record HasAuthority (fw : Framework) (program : Pubkey) (realm : AccountInfo) (mint : Pubkey)
    (authority : Pubkey) (l : Ledger) : Type 0 where
  pub realm_data : RealmData
  pub found :
      fw.get_realm_data_for_governing_token_mint program realm.key (l realm.key) mint
      ≡ ok realm_data
  pub named : realm_data.authority ≡ some authority

module _ (fw : Framework) (program : Pubkey) (realm : AccountInfo) (mint : Pubkey)
    (authority : AccountInfo) (l : Ledger) where
  authority-HasAuthority :
      require_realm_authority fw program realm mint authority l ≡ ok tt
      → HasAuthority fw program realm mint authority.key l
  unfolding require_realm_authority
  authority-HasAuthority h =
      let (data', found, h₁) = >>=-eq-ok _ _ h in
      let (key, named, h₂) = >>=-eq-ok _ _ h₁ in
      let same : key ≡ authority.key = key_eq→eq _ _ (require-eq-ok_last _ _ h₂) in
      record {
        realm_data = data';
        found = found;
        named = ok_or-eq-ok _ _ named ∙ ap (λ (k : Pubkey). some k) same;
      }

  HasAuthority-authority :
      HasAuthority fw program realm mint authority.key l
      → require_realm_authority fw program realm mint authority l ≡ ok tt
  unfolding require_realm_authority
  HasAuthority-authority h = rw (h.found, h.named, (key_eq_iff authority.key _).1 refl)

  -- The check passes exactly for the authority that spl-governance reports for the realm.
  pub require_realm_authority_iff :
      (require_realm_authority fw program realm mint authority l ≡ ok tt)
      ↔ HasAuthority fw program realm mint authority.key l
  require_realm_authority_iff = (authority-HasAuthority, HasAuthority-authority)
