-- ===== src/Lib.antt =====
-- The Entros voter-weight plugin: an Anchor program that gives one vote in spl-governance to each wallet
-- with a recent Entros identity. All paths below are in programs/entros-voter-weight/src.
--
-- The program keeps three kinds of accounts. A registrar, one for each realm and mint, holds the floor
-- of the trust score and the window of the verification's age. A voter weight record, one for each
-- voter of a registrar, is what spl-governance reads as the voter's weight. A max voter weight record,
-- one for each registrar, is read for the quorum. Eight instructions create, update and close them.
--
-- Files:
--   Base, Base/*            shared: lists, options, tests, native numbers, `i64`, bytes
--   Errors                  error.rs, `Result`, `?`, `require!`, and Anchor's errors
--   Solana                  addresses, accounts, the ledger of all accounts, account infos, the clock
--   State                   state/registrar.rs; the two records that governance.rs wraps, with `get_space`
--   Framework, Framework/*  what the program takes from Anchor, Solana and spl-governance: parameters
--                           and the laws that are relied on
--   Buffer, Governance/*    governance.rs: the Anchor traits of the two wrapped records
--   Seeds, Seeds/*          the `seeds` attributes
--   Anchor, Anchor/*        the attributes and account types of the accounts structs, as checks
--   Authority, Authority/*  the check of the realm's authority, which five handlers share
--   Identity, Identity/*    instructions/update_voter_weight_record.rs: the reading of the identity
--                           account and the eligibility tests
--   Instructions/*          one module for each file of instructions/, under the names of its structs:
--                           the struct, `accounts` for its constraints, the handler under its own name,
--                           and `run` for the whole instruction; its modules Outcome and
--                           Complete say when a run succeeds and what it has done
--   Program, Program/*      lib.rs: the instructions and their dispatch `execute`; the invariant of the
--                           ledger (Genuine), the reachable ledgers (Reach) and the theorems on them
--   Tests, Tests/*          a concrete framework that has all the laws, a sample history, and the
--                           theorems at it
--
-- State is passed explicitly: an instruction takes the ledger, a function from addresses to accounts,
-- and returns the new one or an error; on an error the runtime keeps the old ledger. A handler that
-- changes an account through `&mut` returns the changed record, and `run` writes it back into the
-- account's data, as Anchor does when an instruction ends. Numbers are natural numbers with the range
-- of their Rust type as a hypothesis; `i64` is an integer with `checked_sub` and the two's complement
-- written out. Nothing loops without bound, so there is no fuel.
--
-- Parameters (the record Framework): the derivation of addresses, the creation of an account by
-- `init` and its closing by `close`, the realm lookup of spl-governance, and the Borsh codecs with the
-- discriminators of the three account types. AccountLaws and CodecLaws state what is relied on: a new
-- account was unused and holds zeros, a closed one is empty and belongs to the system program, a
-- written record reads back, sizes are those of the fields, and the discriminators differ. The
-- theorems on ledgers have these laws as hypotheses: "the framework's laws" in the list below. The
-- attributes `mut`, `seeds`, `constraint`, `owner`, `executable`, `init` and `close` and the types
-- `Signer`, `Program` and `Account` stand for the checks that Anchor documents for them, in the order in
-- which Anchor makes them: loads in the order of the fields, then `init`, then the constraints.
--
-- Reach is any sequence of this program's instructions, with arguments in the ranges of their types and
-- any clock readings, interleaved with the steps of other programs, which keep the owner and data of
-- this program's accounts, as the runtime enforces. The two read traits of the wrapped records check no
-- discriminator. The theorems on reachable ledgers therefore have a hypothesis that the program does not
-- enforce, AreTagged: every record passed to an update in the history bore the discriminator of its
-- type. Tests/Confusion is a history without it, in which a record is moved to another owner.
--
-- Not modelled: the compute budget, rent beyond the lamports that a closing moves, the failure of a
-- borrow of account data, the generated IDL, the TypeScript tests and the scripts.
pub mod Base
pub mod Errors
pub mod Solana
pub mod State
pub mod Framework
pub mod Buffer
pub mod Governance
pub mod Seeds
pub mod Anchor
pub mod Authority
pub mod Instructions
pub mod Identity
pub mod Program
mod Tests
