-- ===== src/Errors.antt =====
-- error.rs, and the results of fallible code: `Result`, the `?` operator as bind, `require!`
-- and `ok_or`. The errors of Anchor's own account checks stand beside the program's.
use iam_governance_plugin.Base.{ℕ, ◌≡◌, refl, Bool, true, false, Option, none, some, ◌⊎◌, inl, inr}

pub data EntrosVoterError : Type 0 where
  invalid_realm_authority : EntrosVoterError
  missing_identity_account : EntrosVoterError
  invalid_identity_pda : EntrosVoterError
  invalid_identity_owner : EntrosVoterError
  invalid_identity_data : EntrosVoterError
  insufficient_trust_score : EntrosVoterError
  verification_expired : EntrosVoterError
  voter_weight_record_realm_mismatch : EntrosVoterError
  voter_weight_record_mint_mismatch : EntrosVoterError
  voter_weight_record_owner_mismatch : EntrosVoterError
  realm_has_no_authority : EntrosVoterError
  governing_token_owner_signer_mismatch : EntrosVoterError
  invalid_max_verification_age : EntrosVoterError
  invalid_max_voter_weight : EntrosVoterError

-- The errors that Anchor documents for the attributes and account types that the source uses.
pub data AnchorError : Type 0 where
  account_not_initialized : AnchorError
  account_owned_by_wrong_program : AnchorError
  account_did_not_deserialize : AnchorError
  account_did_not_serialize : AnchorError
  account_not_signer : AnchorError
  invalid_program_id : AnchorError
  constraint_mut : AnchorError
  constraint_seeds : AnchorError
  constraint_raw : AnchorError
  constraint_owner : AnchorError
  constraint_executable : AnchorError
  constraint_close : AnchorError

-- `external` is the error code of another program that the instruction calls.
pub data Error : Type 0 where
  entros : EntrosVoterError → Error
  anchor : AnchorError → Error
  external : ℕ → Error

-- What a fallible call returns, the error first.
pub data Result {ℓ} (A : Type ℓ) : Type ℓ where
  err : (reason : Error) → Result A
  ok : (value : A) → Result A

-- The `?` operator: go on with the value, or return the error.
infixl 5 ◌>>=◌
abbrev pub ◌>>=◌ {κ ℓ} : {A : Type κ} {B : Type ℓ} → Result A → (A → Result B) → Result B
err reason >>= go_on = err reason
ok value >>= go_on = go_on value

-- The same after a check, which has no value.
infixl 5 ◌>>◌
abbrev pub ◌>>◌ {ℓ} : {A : Type ℓ} → Result (Unit {0}) → Result A → Result A
check >> go_on = check >>= λ _. go_on

-- `require!(test, error)`
abbrev pub require : Bool → Error → Result (Unit {0})
require true e = ok tt
require false e = err e

-- `option.ok_or(error)?`
abbrev pub ok_or {ℓ} : {A : Type ℓ} → Option A → Error → Result A
ok_or none e = err e
ok_or (some a) e = ok a

-- A chain that succeeds has passed its first step.
pub >>=-eq-ok {κ ℓ} :
    {A : Type κ} {B : Type ℓ} {end : B} (call : Result A) (go_on : A → Result B)
    → call >>= go_on ≡ ok end
    → (value : A) × (call ≡ ok value) × (go_on value ≡ ok end)
>>=-eq-ok (err reason) go_on h = cc
>>=-eq-ok (ok value) go_on h = (value, refl, h)

pub require-eq-ok {ℓ} :
    {B : Type ℓ} (t : Bool) (e : Error) (k : Result B) {b : B}
    → (require t e >> k) ≡ ok b
    → (t ≡ true) × (k ≡ ok b)
require-eq-ok true e k h = (refl, h)
require-eq-ok false e k h = cc

-- A check and what follows fail with the error of the first that fails.
pub require-eq-err {ℓ} :
    {A : Type ℓ} (test : Bool) (reason : Error) (go_on : Result A) {e : Error}
    → require test reason >> go_on ≡ err e
    → ((test ≡ false) × (e ≡ reason)) ⊎ ((test ≡ true) × (go_on ≡ err e))
require-eq-err true reason go_on h = inr (refl, h)
require-eq-err false reason go_on h = inl (refl, cc h)

pub require-eq-ok_last : (t : Bool) (e : Error) → require t e ≡ ok tt → t ≡ true
require-eq-ok_last true e h = refl
require-eq-ok_last false e h = cc

pub ok_or-eq-ok {ℓ} :
    {A : Type ℓ} (o : Option A) (e : Error) {a : A} → ok_or o e ≡ ok a → o ≡ some a
ok_or-eq-ok none e h = cc
ok_or-eq-ok (some a) e h = cc

pub ok-ne-err {ℓ} : {A : Type ℓ} {a : A} {e : Error} (r : Result A) → r ≡ ok a → r ≡ err e → ⊥
ok-ne-err r h k = cc
