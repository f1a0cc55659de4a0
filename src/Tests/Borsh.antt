-- ===== src/Tests/Borsh.antt =====
-- Borsh's reading and writing of fixed byte strings, numbers, keys and options, for the sample codecs.
use iam_governance_plugin.Base.{
  ℕ, zero, suc, ◌^◌, ◌<◌, ◌≡◌, refl, Option, none, some, [], ◌∷◌, ◌++◌, length, take, drop,
  take-append, drop-append, length-append, leb, le→leb, if◌then◌else◌, arith,
}
use iam_governance_plugin.Base.Bytes.{
  Bytes, from_le_bytes, to_le_bytes, from_le_bytes-to_le_bytes, length-to_le_bytes,
}
use iam_governance_plugin.Solana.{Pubkey, IsKey}
use iam_governance_plugin.State.{Each}
use iam_governance_plugin.Framework.Laws.{option_size}

infixl 5 ◌>>=◌
abbrev pub ◌>>=◌ {ℓ κ} : {A : Type ℓ} {B : Type κ} → Option A → (A → Option B) → Option B
none >>= f = none
some a >>= f = f a

-- The next `n` bytes and the rest.
unfoldable pub raw : ℕ → Bytes → Option (Bytes × Bytes)
raw n b = if leb n (length b) then some (take n b, drop n b) else none

pub raw-append :
    (n : ℕ) (out rest : Bytes) → length out ≡ n → raw n (out ++ rest) ≡ some (out, rest)
unfolding raw
raw-append n out rest h = rw (
  ← h,
  le→leb (length out) (length (out ++ rest)) (omega (arith, length-append out rest)),
  take-append out rest,
  drop-append out rest,
)

unfoldable pub number : ℕ → Bytes → Option (ℕ × Bytes)
unfolding raw
number w b = do (out, rest) ← raw w b; some (from_le_bytes out, rest)

pub number-append :
    (w n : ℕ) (rest : Bytes) → n < 256 ^ w → number w (to_le_bytes w n ++ rest) ≡ some (n, rest)
unfolding number
number-append w n rest h =
    rw (
      raw-append w (to_le_bytes w n) rest (length-to_le_bytes w n),
      from_le_bytes-to_le_bytes w n h,
    )

unfoldable pub key : Bytes → Option (Pubkey × Bytes)
unfolding raw
key b = do (out, rest) ← raw 32 b; some (record { bytes = out }, rest)

pub key-append : (k : Pubkey) (rest : Bytes) → IsKey k → key (k.bytes ++ rest) ≡ some (k, rest)
unfolding key
key-append k rest h = rw (raw-append 32 k.bytes rest h)

module _ {A : Type 0} where
  -- An option: the tag 0, or the tag 1 and the value.
  unfoldable pub option : (Bytes → Option (A × Bytes)) → Bytes → Option (Option A × Bytes)
  option read [] = none
  option read (zero ∷ rest) = some (none, rest)
  option read (suc zero ∷ rest) = do (a, rest') ← read rest; some (some a, rest')
  option read (suc (suc _) ∷ rest) = none

  unfoldable pub write_option : (A → Bytes) → Option A → Bytes
  write_option write none = 0 ∷ []
  write_option write (some a) = 1 ∷ write a

  pub option-append :
      (read : Bytes → Option (A × Bytes)) (write : A → Bytes) (o : Option A) (rest : Bytes)
      → Each (λ a. read (write a ++ rest) ≡ some (a, rest)) o
      → option read (write_option write o ++ rest) ≡ some (o, rest)
  unfolding option write_option
  option-append read write none rest h = refl
  option-append read write (some a) rest h = rw h

  pub length-write_option :
      (n : ℕ) (write : A → Bytes) (o : Option A)
      → Each (λ a. length (write a) ≡ n) o
      → length (write_option write o) ≡ option_size n o
  unfolding write_option
  length-write_option n write none h = refl
  length-write_option n write (some a) h = omega (arith, h)
