-- ===== src/Program/Reach.antt =====
-- The ledgers that can be reached: any sequence of this program's instructions, with arguments in the
-- ranges of their types and any clock readings, interleaved with what other programs can do.
use iam_governance_plugin.Base.{ℕ, ◌≡◌, ◌⊎◌, inl, inr, sym, subst, replicate}
use iam_governance_plugin.Errors.{Result, ok}
use iam_governance_plugin.Solana.{Pubkey, Ledger, Clock}
use iam_governance_plugin.State.{id}
use iam_governance_plugin.Framework.{Framework}
use iam_governance_plugin.Framework.Laws.{AccountLaws, CodecLaws}
use iam_governance_plugin.Program.{Instruction, execute}
use iam_governance_plugin.Program.Genuine.{IsGenuine, blank, IsSound}
use iam_governance_plugin.Program.Soundness.{InRange, IsTagged, execute-IsSound}

-- Other programs keep the owner and data of this program's accounts, as the runtime enforces, and
-- may assign an account to it only with data of zeros. All else is free.
pub record IsOutside (l l' : Ledger) : Type 0 where
  pub kept : (k : Pubkey) → (l k).owner ≡ id → ((l' k).owner ≡ id) × ((l' k).bytes ≡ (l k).bytes)
  pub assigned :
      (k : Pubkey)
      → (l' k).owner ≡ id
      → ((l k).owner ≡ id) ⊎ ((n : ℕ) × ((l' k).bytes ≡ replicate n 0))

pub data Step (fw : Framework) (l l' : Ledger) : Type 0 where
  instruction :
      (clock : Result Clock) (i : Instruction)
      → InRange i
      → execute fw clock i l ≡ ok l'
      → Step fw l l'
  outside : IsOutside l l' → Step fw l l'

-- From a ledger in which the program owns no account.
pub data Reach (fw : Framework) : Ledger → Type 0 where
  start : {l : Ledger} → ((k : Pubkey) → (l k).owner ≡ id → ⊥) → Reach fw l
  next : {l l' : Ledger} → Reach fw l → Step fw l l' → Reach fw l'

-- In a history, every record that was passed to an update instruction began with the discriminator of
-- its type. The program does not check this.
abbrev pub AreTagged : (fw : Framework) {l : Ledger} → Reach fw l → Type 0
AreTagged fw (start none_owned) = Unit
AreTagged fw (next {l} before (instruction clock i range h)) = AreTagged fw before × IsTagged fw l i
AreTagged fw (next before (outside o)) = AreTagged fw before

outside-IsSound : (fw : Framework) (l l' : Ledger) → IsSound fw l → IsOutside l l' → IsSound fw l'
outside-IsSound fw l l' sound o = record {
  genuine = λ k owned. elim (o.assigned k owned) [
    | inl before ↦ subst (λ b. IsGenuine fw k b) (sym (o.kept k before).1) (sound.genuine k before)
    | inr (n, zeros) ↦ blank n zeros
  ];
}

module _ (fw : Framework) (account_laws : AccountLaws fw) (laws : CodecLaws fw) where
  -- Under the framework's laws: in a reachable ledger, where every record passed to an update in
  -- its history bore the discriminator of its type, each account of the program holds zeros or one
  -- well-formed record, at the address that the record's own fields derive.
  pub Reach-IsSound : {l : Ledger} (r : Reach fw l) → AreTagged fw r → IsSound fw l
  Reach-IsSound (start none_owned) tagged = record {
    genuine = λ k owned. absurd (none_owned k owned);
  }
  Reach-IsSound (next {l} {l'} r (instruction clock i range h)) tagged =
      execute-IsSound fw account_laws laws clock i l l' (Reach-IsSound r tagged.0) range tagged.1 h
  Reach-IsSound (next {l} {l'} r (outside o)) tagged =
      outside-IsSound fw l l' (Reach-IsSound r tagged) o
