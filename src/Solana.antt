-- ===== src/Solana.antt =====
-- What the Solana runtime keeps and passes: addresses, accounts, the ledger of all accounts, the
-- account infos of an instruction, and the clock.
use iam_governance_plugin.Base.{
  ℕ, ◌≡◌, ◌≢◌, ◌↔◌, Bool, true, false, length, if◌then◌else◌, Bool-cases, inl, inr,
}
use mathlib.Core.Bool.{not}
use iam_governance_plugin.Base.Int.{ℤ}
use iam_governance_plugin.Base.Bytes.{Bytes, bytes_eq, bytes_eq→eq, bytes_eq_refl}

pub record Pubkey : Type 0 where
  pub bytes : Bytes

-- An address has 32 bytes.
abbrev pub IsKey : Pubkey → Type 0
IsKey k = length k.bytes ≡ 32

unfoldable pub key_eq : Pubkey → Pubkey → Bool
key_eq a b = bytes_eq a.bytes b.bytes

pub key_eq→eq : (a b : Pubkey) → key_eq a b ≡ true → a ≡ b
unfolding key_eq
key_eq→eq a b h = λ i. record { bytes = bytes_eq→eq a.bytes b.bytes h i }

pub key_eq_refl : (a : Pubkey) → key_eq a a ≡ true
unfolding key_eq
key_eq_refl a = bytes_eq_refl a.bytes

pub key_eq_iff : (a b : Pubkey) → (key_eq a b ≡ true) ↔ (a ≡ b)
key_eq_iff a b = (key_eq→eq a b, λ e. rw e (key_eq_refl b))

pub key_eq_ne : (a b : Pubkey) → a ≢ b → key_eq a b ≡ false
key_eq_ne a b h = elim (Bool-cases (key_eq a b)) [
  | inl same ↦ absurd (h (key_eq→eq a b same))
  | inr other ↦ other
]

pub key_ne : (a b : Pubkey) → not (key_eq a b) ≡ true → a ≢ b
key_ne a b h e =
    let same : key_eq a b ≡ true = (key_eq_iff a b).1 e in
    let other : not true ≡ true = rw same at h in cc other

-- An account; `bytes` is its data.
pub record Account : Type 0 where
  pub lamports : ℕ
  pub owner : Pubkey
  pub executable : Bool
  pub bytes : Bytes

-- All accounts by address; an address that was never used holds an empty account.
abbrev pub Ledger : Type 0
Ledger = Pubkey → Account

unfoldable pub put : Pubkey → Account → Ledger → Ledger
put k a l j = if key_eq k j then a else l j

pub put_self : (k : Pubkey) (a : Account) (l : Ledger) → put k a l k ≡ a
unfolding put
put_self k a l = rw (key_eq_refl k)

pub put_ne : (k j : Pubkey) (a : Account) (l : Ledger) → k ≢ j → put k a l j ≡ l j
unfolding put
put_ne k j a l h = rw (key_eq_ne k j h)

-- What a transaction says of an account that it passes to an instruction.
pub record AccountInfo : Type 0 where
  pub key : Pubkey
  pub is_signer : Bool
  pub is_writable : Bool

-- The fields of the clock sysvar that the program reads.
pub record Clock : Type 0 where
  pub unix_timestamp : ℤ
  pub slot : ℕ
