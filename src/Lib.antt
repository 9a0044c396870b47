-- ===== src/Lib.antt =====
-- The registry of names of the mint (`src/mint.rs` and `src/mint/`), modelled as pure functions on
-- explicit states. A user asks the Treasury for a name, the mint authorizes a Name Note, the note is
-- confirmed in a block, and the block application hands it to the registry, which is the law: who
-- holds a name, until when, and what may follow. Every state is a function of the chain, so a reorg
-- is a rewind of each state to a height.
--
-- Parts and files:
--   Chain      the foreign types as the numbers that are their identities, and what the program
--              computes with the libraries' help, as the fields of `Params`; `Lawful` states the
--              documented laws of the address and commitment encodings
--   Name, Action, Request, Term   `src/mint.rs` and the first part of `src/mint/note.rs`: `Name`,
--              `Action`, `Request` with its memo in Request/Decode, `Expiry`, `Term`;
--              Term/Clock, Term/Grammar and Request/RoundTrip have their laws
--   Note       `NameNote` of `src/mint/note.rs`; Note/Codec its memo, Note/Hash the input of its
--              commitment, Note/Queue, Note/Reconcile and Note/Confirmed the `NameNoteQueue`
--   Anchor     `src/mint/registry/anchor_pool.rs`: `AnchorPool`
--   Listing    the listing and its falling price, of `src/mint/sale.rs`
--   Registry   `src/mint/registry.rs`: the state; Registry/Authorize what may be written next,
--              Registry/Accept what a confirmed transaction does (with the confirmation pass of
--              `apply_block`), Registry/Listings the market's entries; the other files prove:
--              Coherence, Steps, Truncate, Invariant, Spent, Accepted, Authorized
--              and Market
--   Otp        `src/mint/treasury/otp.rs`: passcodes (Otp/Code, Otp/Derive) and the
--              challenges that wait for an answer (Otp/Laws, Otp/Complete); Otp/Memo the sentence of
--              a challenge, of `src/mint.rs`, with Otp/MemoRoundTrip
--   Mtp        `src/mint/mtp.rs`: the median time past
--   Treasury   the queues of `src/mint/treasury.rs` and `src/mint/treasury/refund.rs`
--   Payment    the amount that a buyer pays, of `src/mint/sale.rs`; Payment/Zec the texts of prices
--              and heights, Payment/ZecRoundTrip their proofs
--   Presale    `src/mint/presale.rs`: the protected names and the derived codes; Presale/Table has
--              its theorem
--   Pricing    `src/mint/pricing.rs`: the price of a name, the median of a round and the oracle;
--              Pricing/Tariff, Pricing/Round and Pricing/Day prove. `Decimal` is the parameter
--              `Decimals`, of which no arithmetic is assumed; its overflow panics are left out
--   Sale       `SaleQueue` of `src/mint/sale.rs`; Sale/Settle takes the payments, Sale/Leave says
--              which sales stay; Sale/Observe, Sale/Open and Sale/Owed prove
--   Challenge  `MarketChallenge` of `src/mint/sale.rs`
--   Market     `Market` of `src/mint/sale.rs`: the state with its log of events and the replay;
--              Market/Trade lists, delists, proposes and opens a buy, Market/Answer takes a
--              response, Market/Admit a memo, which Market/Decode reads (with `MintInbound` of
--              `src/mint.rs`; Market/Unread is about the replies). Market/View is what the log
--              determines of a state and what one event does to it; Market/Logged, Steps, Trades and Answers show for
--              every operation that it changes the view as its events do, and Market/Reach and
--              Market/Rewind draw the conclusions; Buys, Spent, Counting and Admitted are about
--              single operations
--   Text       the text operations that the memo grammars use
--   Prelude    shared names, lists, maps and sets
--   Examples   a small network, and statements at concrete inputs
--
-- Conventions: a method that changes `self` returns the new state, with its result beside it. A
-- BTreeMap is an association list in the order of its keys with one entry for each, a BTreeSet a
-- list without repetition. A panic is `none`. Numbers are natural numbers; where the source's
-- checked arithmetic refuses, the model returns `none`, and where a sum or product cannot leave its
-- type a comment says why. The loops run on the structure of a list, but for the decimal printer,
-- whose fuel is the number itself (each round divides it by ten), and the search for a free
-- passcode, which runs on the codes drawn so far and returns `none` where none of them is free.
-- A ruling of the market is a value, a refusal, or `panic`.
--
-- Not modelled: scanning, decryption, proofs and transaction building (calls of the wallet
-- libraries), blocks below the birthday, in which `apply_block` accepts nothing, the node client, the run loop's input and output, and the reads over HTTP, those of
-- the exchanges included. The market's log lines are left out.
pub mod Prelude
pub mod Text
pub mod Chain
pub mod Name
pub mod Action
pub mod Term
pub mod Note
pub mod Anchor
pub mod Request
pub mod Listing
pub mod Registry
pub mod Otp
pub mod Mtp
pub mod Treasury
pub mod Payment
pub mod Pricing
pub mod Presale
pub mod Sale
pub mod Challenge
pub mod Market
pub mod Examples
