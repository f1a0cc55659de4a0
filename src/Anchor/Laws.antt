-- ===== src/Anchor/Laws.antt =====
-- What the account types and attributes establish when their checks pass, and the converse.
use iam_governance_plugin.Base.{ℕ, ◌≡◌, refl, ◌&&◌, ◌==◌, Bool, true, false, List}
use mathlib.Core.Bool.{not}
use iam_governance_plugin.Base.Bytes.{Bytes}
use iam_governance_plugin.Errors.{Result, ok, >>=-eq-ok, require-eq-ok}
use iam_governance_plugin.Solana.{Pubkey, key_eq, key_eq→eq, key_eq_iff, Ledger, put, AccountInfo}
use iam_governance_plugin.Framework.{Framework}
use iam_governance_plugin.Seeds.{derived}
use iam_governance_plugin.Anchor.{account, init, exit}

false_of_not : (b : Bool) → not b ≡ true → b ≡ false
false_of_not true h = cc
false_of_not false h = refl

-- `Account<'info, T>` holds `a`.
pub record IsLoaded {A : Type 0} (fw : Framework) (owner : Pubkey)
    (try_deserialize : Bytes → Result A) (info : AccountInfo) (l : Ledger) (a : A) : Type 0 where
  pub live : (key_eq (l info.key).owner fw.system_program && ((l info.key).lamports == 0)) ≡ false
  pub owned : (l info.key).owner ≡ owner
  pub read : try_deserialize (l info.key).bytes ≡ ok a

module _ {A : Type 0} (fw : Framework) (owner : Pubkey) (try_deserialize : Bytes → Result A) where
  pub account-IsLoaded :
      (info : AccountInfo) (l : Ledger) (a : A)
      → account fw owner try_deserialize info l ≡ ok a
      → IsLoaded fw owner try_deserialize info l a
  unfolding account
  account-IsLoaded info l a h =
      let (live, h₁) = require-eq-ok _ _ _ h in
      let (owned, h₂) = require-eq-ok _ _ _ h₁ in
      record { live = false_of_not _ live; owned = key_eq→eq _ _ owned; read = h₂ }

  pub IsLoaded-account :
      (info : AccountInfo) (l : Ledger) (a : A)
      → IsLoaded fw owner try_deserialize info l a
      → account fw owner try_deserialize info l ≡ ok a
  unfolding account
  IsLoaded-account info l a h = rw (h.live, (key_eq_iff _ _).1 h.owned) h.read

-- `init` has created the account, and reads `fresh` from it.
pub record IsCreated {A : Type 0} (fw : Framework) (owner : Pubkey)
    (try_deserialize_unchecked : Bytes → Result A) (seeds : List Bytes) (space : ℕ)
    (payer : AccountInfo) (info : AccountInfo) (l : Ledger) (fresh : A) (l' : Ledger) : Type 0 where
  pub address : info.key ≡ derived fw seeds
  pub created : fw.create_account payer.key info.key space owner l ≡ ok l'
  pub read : try_deserialize_unchecked (l' info.key).bytes ≡ ok fresh
  pub writable : info.is_writable ≡ true

module _ {A : Type 0} (fw : Framework) (owner : Pubkey)
    (try_deserialize_unchecked : Bytes → Result A) where
  pub init-IsCreated :
      (seeds : List Bytes) (space : ℕ) (payer info : AccountInfo) (l : Ledger) (made : A × Ledger)
      → init fw owner try_deserialize_unchecked seeds space payer info l ≡ ok made
      → IsCreated fw owner try_deserialize_unchecked seeds space payer info l made.0 made.1
  unfolding init
  init-IsCreated seeds space payer info l made h =
      let (address, h₁) = require-eq-ok _ _ _ h in
      let (l₁, created, h₂) = >>=-eq-ok _ _ h₁ in
      let (fresh, read, h₃) = >>=-eq-ok _ _ h₂ in
      let (writable, h₄) = require-eq-ok _ _ _ h₃ in
      let same : (fresh, l₁) ≡ made = cc h₄ in
      rw (← same) (record {
        address = key_eq→eq _ _ address;
        created = created;
        read = read;
        writable = writable;
      })

  pub IsCreated-init :
      (seeds : List Bytes) (space : ℕ) (payer info : AccountInfo) (l l' : Ledger) (fresh : A)
      → IsCreated fw owner try_deserialize_unchecked seeds space payer info l fresh l'
      → init fw owner try_deserialize_unchecked seeds space payer info l ≡ ok (fresh, l')
  unfolding init
  IsCreated-init seeds space payer info l l' fresh h =
      rw ((key_eq_iff _ _).1 h.address, h.created, h.read, h.writable)

-- The write of a changed account, and nothing else, is what the instruction leaves.
pub exit_inversion :
    (try_serialize : Bytes → Result Bytes) (info : AccountInfo) (l l' : Ledger)
    → exit try_serialize info l ≡ ok l'
    → (bytes : Bytes) × (try_serialize (l info.key).bytes ≡ ok bytes)
      × (l' ≡ put info.key (record (l info.key) { bytes = bytes }) l)
unfolding exit
exit_inversion try_serialize info l l' h =
    let (bytes, wrote, h₁) = >>=-eq-ok _ _ h in (bytes, wrote, cc h₁)
