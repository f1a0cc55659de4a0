-- ===== src/Base/Bytes.antt =====
-- Byte strings as lists of numbers: equality, slices, and little-endian integers.
use iam_governance_plugin.Base.Tests.{ltb, ◌==◌, if◌then◌else◌}
use iam_governance_plugin.Base.Lists.{length, take, drop, take-append, drop-append}
use iam_governance_plugin.Base.Int.{ℤ, pos, negsuc, IsI64}
use Prim.Native.Nat.{ℕ, zero, suc, ◌+◌, ◌-◌, ◌*◌, ◌/◌, ◌%◌, ◌^◌, ◌<◌}
use mathlib.Core.Path.{◌≡◌, refl, ap}
use mathlib.Core.Bool.{Bool, true, false, ◌&&◌}
use mathlib.Core.List.{List, [], ◌∷◌, ◌++◌, append_assoc}
use native.Mathlib.Nat.{pow-suc}
use native.Mathlib.Omega.{arith}

abbrev pub Bytes : Type 0
Bytes = List ℕ

-- Every number of the list is a byte.
abbrev pub AreBytes : Bytes → Type 0
AreBytes [] = Unit
AreBytes (b ∷ bs) = (b < 256) × AreBytes bs

unfoldable pub bytes_eq : Bytes → Bytes → Bool
bytes_eq [] [] = true
bytes_eq [] (_ ∷ _) = false
bytes_eq (_ ∷ _) [] = false
bytes_eq (a ∷ as') (b ∷ bs) = (a == b) && bytes_eq as' bs

pub bytes_eq→eq : (a b : Bytes) → bytes_eq a b ≡ true → a ≡ b
unfolding bytes_eq
bytes_eq→eq [] [] h = refl
bytes_eq→eq [] (_ ∷ _) h = cc
bytes_eq→eq (_ ∷ _) [] h = cc
bytes_eq→eq (a ∷ as') (b ∷ bs) h = ground (arith, bytes_eq→eq as' bs)

pub bytes_eq_refl : (a : Bytes) → bytes_eq a a ≡ true
unfolding bytes_eq
bytes_eq_refl [] = refl
bytes_eq_refl (a ∷ as') = ground (arith, bytes_eq_refl as')

-- `bytes[at..at + len]`, for a range that lies inside.
abbrev pub slice : ℕ → ℕ → Bytes → Bytes
slice at len bs = take len (drop at bs)

-- `from_le_bytes` of an unsigned integer.
unfoldable pub from_le_bytes : Bytes → ℕ
from_le_bytes [] = 0
from_le_bytes (b ∷ bs) = b + 256 * from_le_bytes bs

-- `to_le_bytes` of an integer of `w` bytes.
unfoldable pub to_le_bytes : ℕ → ℕ → Bytes
to_le_bytes zero n = []
to_le_bytes (suc w) n = (n % 256) ∷ to_le_bytes w (n / 256)

-- The `i64` that a pattern of 64 bits stands for.
unfoldable pub as_i64 : ℕ → ℤ
as_i64 n = if ltb n (2 ^ 63) then pos n else negsuc (2 ^ 64 - n - 1)

pub length-to_le_bytes : (w n : ℕ) → length (to_le_bytes w n) ≡ w
unfolding to_le_bytes
length-to_le_bytes zero n = refl
length-to_le_bytes (suc w) n = ap suc (length-to_le_bytes w (n / 256))

-- A number of `w` bytes survives the way into bytes and back.
pub from_le_bytes-to_le_bytes : (w n : ℕ) → n < 256 ^ w → from_le_bytes (to_le_bytes w n) ≡ n
unfolding from_le_bytes to_le_bytes
from_le_bytes-to_le_bytes zero n h = omega arith
from_le_bytes-to_le_bytes (suc w) n h =
    let p : 256 ^ suc w ≡ 256 ^ w * 256 = pow-suc 256 w in
    let ih = from_le_bytes-to_le_bytes w (n / 256) (omega arith) in omega arith

-- The pattern of 64 bits of an `i64`.
unfoldable pub i64_bits : ℤ → ℕ
i64_bits (pos n) = n
i64_bits (negsuc n) = 2 ^ 64 - n - 1

pub as_i64-i64_bits : (a : ℤ) → IsI64 a → as_i64 (i64_bits a) ≡ a
unfolding as_i64 i64_bits
as_i64-i64_bits (pos n) h = ground arith
as_i64-i64_bits (negsuc n) h = ground arith

pub i64_bits-lt : (a : ℤ) → IsI64 a → i64_bits a < 2 ^ 64
unfolding i64_bits
i64_bits-lt (pos n) h = ground arith
i64_bits-lt (negsuc n) h = ground arith

-- A slice that is a part of its own.
pub slice-append :
    (before part after : Bytes)
    → slice (length before) (length part) (before ++ part ++ after) ≡ part
slice-append before part after =
    rw (append_assoc before part after, drop-append before) (take-append part after)
