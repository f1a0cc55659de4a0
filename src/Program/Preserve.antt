-- ===== src/Program/Preserve.antt =====
-- How a ledger stays sound: by a write, a creation with a write, a closing.
use iam_governance_plugin.Base.{
  length-replicate, ℕ, ◌≡◌, ap, sym, ◌∙◌, ◌≢◌, Bool-cases, inl, inr, ◌++◌, length, subst,
}
use mathlib.Core.Bool.{true≢false}
use iam_governance_plugin.Base.Bytes.{Bytes}
use iam_governance_plugin.Errors.{ok}
use iam_governance_plugin.Solana.{Pubkey, key_eq, key_eq→eq, key_eq_iff, Ledger}
use iam_governance_plugin.State.{id}
use iam_governance_plugin.Framework.{Framework}
use iam_governance_plugin.Framework.Laws.{AccountLaws}
use iam_governance_plugin.Anchor.Writes.{IsWritten, written_bytes, written_others, written_length}
use iam_governance_plugin.Program.Genuine.{IsGenuine, IsSound}

-- It is enough to look at one account if the others keep owner and data.
IsSound-except :
    (fw : Framework) (k : Pubkey) (l l' : Ledger)
    → IsSound fw l
    → ((j : Pubkey) → k ≢ j → ((l' j).owner ≡ (l j).owner) × ((l' j).bytes ≡ (l j).bytes))
    → ((l' k).owner ≡ id → IsGenuine fw k (l' k).bytes)
    → IsSound fw l'
IsSound-except fw k l l' sound others here = record {
  genuine = λ j owned. elim (Bool-cases (key_eq k j)) [
    | inl same ↦
        let e : k ≡ j = key_eq→eq k j same in
        subst (λ x. (l' x).owner ≡ id → IsGenuine fw x (l' x).bytes) e here owned
    | inr other ↦
        let ne : k ≢ j = λ e. true≢false ((sym ((key_eq_iff k j).1 e)) ∙ other) in
        let (same_owner, same_bytes) = others j ne in
        subst (λ b. IsGenuine fw j b) (sym same_bytes) (sound.genuine j (sym same_owner ∙ owned))
  ];
}

pub IsSound-IsWritten :
    (fw : Framework) {out : Bytes} {k : Pubkey} {l l' : Ledger}
    → IsSound fw l
    → IsWritten out k l l'
    → ((rest : Bytes) → length (out ++ rest) ≡ length (l k).bytes → IsGenuine fw k (out ++ rest))
    → IsSound fw l'
IsSound-IsWritten fw {out} {k} {l} {l'} sound w here =
    IsSound-except fw k l l' sound
      (λ j ne.
        (ap (λ a. a.owner) (written_others w j ne), ap (λ a. a.bytes) (written_others w j ne)))
      (λ _.
        subst (λ b. IsGenuine fw k b) (sym (written_bytes w))
          (here _ (sym (ap length (written_bytes w)) ∙ written_length w)))

pub IsSound-create :
    (fw : Framework) (laws : AccountLaws fw) (payer : Pubkey) (space : ℕ) {out : Bytes} {k : Pubkey}
    {l l₁ l' : Ledger}
    → IsSound fw l
    → fw.create_account payer k space id l ≡ ok l₁
    → IsWritten out k l₁ l'
    → ((rest : Bytes) → length (out ++ rest) ≡ space → IsGenuine fw k (out ++ rest))
    → IsSound fw l'
IsSound-create fw laws payer space {out} {k} {l} {l₁} {l'} sound made w here =
    let zeros = (laws.create_account_new payer k space id l l₁ made).1 in
    IsSound-except fw k l l' sound
      (λ j ne.
        let same = written_others w j ne in
        let (o, b) = laws.create_account_others payer k space id l l₁ j made ne in
        (ap (λ a. a.owner) same ∙ o, ap (λ a. a.bytes) same ∙ b))
      (λ _.
        subst (λ b. IsGenuine fw k b) (sym (written_bytes w))
          (here _ (
            sym (ap length (written_bytes w))
            ∙ written_length w
            ∙ ap length zeros
            ∙ length-replicate space 0)))

pub IsSound-close :
    (fw : Framework) (laws : AccountLaws fw) (k destination : Pubkey) {l l' : Ledger}
    → IsSound fw l
    → fw.close k destination l ≡ ok l'
    → k ≢ destination
    → IsSound fw l'
IsSound-close fw laws k destination {l} {l'} sound closed ne =
    IsSound-except fw k l l' sound (λ j other. laws.close_others k destination l l' j closed other)
      (λ owned. absurd (
        laws.system_program_ne_id
          (sym (laws.close_account k destination l l' closed ne).0 ∙ owned)))
