-- ===== src/Buffer.antt =====
-- Writing into the data of an account: the bytes go to the front, and what they do not cover stays.
use iam_governance_plugin.Base.{
  ◌≤◌, ◌≡◌, Option, none, some, ◌++◌, length, drop, leb, le→leb, if◌then◌else◌, arith,
}
use iam_governance_plugin.Base.Bytes.{Bytes}

-- A write that does not fit fails.
unfoldable pub fill : Bytes → Bytes → Option Bytes
fill out bytes =
    if leb (length out) (length bytes) then some (out ++ drop (length out) bytes) else none

pub fill-eq-some :
    (out bytes : Bytes)
    → length out ≤ length bytes
    → fill out bytes ≡ some (out ++ drop (length out) bytes)
unfolding fill
fill-eq-some out bytes h = rw (le→leb _ _ h)

pub fill_inversion :
    (out bytes : Bytes) {res : Bytes}
    → fill out bytes ≡ some res
    → (length out ≤ length bytes) × (res ≡ out ++ drop (length out) bytes)
unfolding fill
fill_inversion out bytes h = ground arith
