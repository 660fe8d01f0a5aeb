-- ===== src/Lib.antt =====
-- A verification library of AICash: the mint's token ledger, with the codec, the hash locks and the
-- burn rule that it stands on, the custodial accounts of its supervision service, and the arithmetic
-- of channels, escrow, swaps and coins above it.
--
-- Parts of the program, and the files that model them. A mint keeps entries in a sqlite ledger. An
-- entry is named by the hash of a secret; whoever knows the secret exchanges it, in one atomic call,
-- for entries of the same value less a burn. An entry can carry a lock, which one witness opens before
-- an instant and another from it on.
--   impl/aicash/burncalc.py      Burn: `validate_policy`, `compute_burn`, `effective_policy`,
--                                `is_increase` and `validate_notice` under their own names; an exception
--                                is the constructor `raised` of `Checked`.
--   impl/aicash/tokencodec.py    Codec: `b64u_encode` and `b64u_decode` over lists of character codes
--                                and bytes, `ledger_key`; Codec.TokenText, `format_token` and
--                                `parse_token`; `none` is `TokenError`.
--   impl/aicash/lockeval.py      Lock: `validate_lock` and `evaluate`, whose early returns are split
--                                into one function for each stage.
--   impl/aicash/ledgerstore.py   Ledger: Ledger.Table (rows under a primary key), Ledger.State (the rows,
--                                the three tables as the record `Db`, the configuration, the answers),
--                                Ledger.Inputs (`_resolve_input`), Ledger.Outputs (`parse_output_wire`,
--                                `_resolve_output`), Ledger.Exchange (`exchange`, `_exchange_locked`),
--                                Ledger.Issue (`issue`), Ledger.Reads (`status`, `supply`, `prune`, the
--                                checks of the constructor and `adopt_burn_policy_next`).
--   impl/aicash/supervision.py   Supervision: the rows, the answers and the predicates on request fields;
--                                Supervision.Accounts (`_agent`, the journal sums, `_cap_violation`),
--                                Supervision.Access (`_principal`, `registration_authorized`, `dispatch`),
--                                Supervision.Administration (the operator's routes, `agent_balance`),
--                                Supervision.Moves (`agent_transfer`, `agent_pull`,
--                                `agent_authorize_pull`, `agent_revoke_pull`), Supervision.Statement
--                                (`op_statement`, `_balance_from_lines`), Supervision.Custody (the
--                                tables of the custody and of the staged operations),
--                                Supervision.Bridge (`agent_deposit`, which calls `parse_token` and the
--                                ledger's `exchange`, and `_finalize_deposit`), Supervision.Selection
--                                and Supervision.Withdrawal (`agent_withdraw`, `_finalize_withdraw`,
--                                `_unwind_withdraw`), Supervision.Recovery (`_recover_pending`). Each
--                                route has its own name; Supervision.History is any sequence of them.
--   impl/aicash/channels.py      Channel: `derive_chain`, `split_tranches`, `_gross_for_net`, and the
--                                payee's `on_draw` over the tranches that it accepted; Channel.Payer,
--                                the payer's `draw`; Channel.Delivery, a draw from the one to the other;
--                                Channel.Descriptor, `_policy_from_descriptor`;
--                                Channel.Chunks, `_chunks`.
--   impl/aicash/escrow.py        Escrow: `compute_deadlines`, `milestone_schedule`, `rung_composition`.
--   impl/aicash/swap.py          Swap: `compute_margin` and the descriptor fields that it reads.
--   impl/aicash/wallet.py        Wallet: `_decompose`; Wallet.Selection, `_select`.
--   impl/aicash/clock.py         Clock: `FakeClock`.
-- The proofs stand in the child modules, and Tests has the runs at concrete inputs.
--
-- How state and calls are written. A call takes the tables and answers with its result and the tables
-- after it, in `Run`; a fault is any exception but a rejection, and its transaction is rolled back. The
-- clock is the argument `now`, read once in every call, milliseconds from the epoch. The write lock is
-- held from the begin to the end of a call, so a history is a sequence of whole calls (Ledger.History).
-- The set of keys seen in a batch is passed along. A result that is stored as JSON text reads back as
-- itself.
--
-- Numbers are unbounded as in Python; the column's bound is `max_amount_mc`, and the checks that
-- keep the ledger's numbers within it are modelled. Every loop over a list is structural recursion.
-- Four loops take fuel. In Wallet the selection takes the number of coins, one of which each round
-- takes. In Channel the split takes the number of increments and the chunking the number of items,
-- since a round uses one at least, and the search for a gross amount takes two more than the cap of
-- the burn, which it cannot outgrow.
--
-- A route of Supervision answers in `Answer`: `ok` with the answer's content and the tables after
-- it, a refusal, or `internal`, an exception, which the handler answers with 500; after these two
-- the tables are as they were. A deposit and a withdrawal have three transactions, so they answer
-- with the tables in every case; the burn of a deposit is at most a hundredth of the sum, and the
-- change of a withdrawal is taken where the custody covers it, so these subtractions do not stop
-- at 0. A history has whole calls; a crash between the transactions of one call is stated of that
-- call, where nothing else is staged. The ids and keys that `os.urandom` makes are arguments of the
-- routes. The journal's newest line stands in front. A decimal amount has at most nineteen digits, so
-- the printing of one takes nineteen as fuel.
--
-- Parameters. `str.isprintable` is the interface `Unicode`, of which nothing is assumed. SHA-256
-- comes from the standard library: it is the interface `Hash`, of which nothing is assumed but that
-- its result is 32 bytes.
--
-- Not modelled: the connection per thread and the text of error messages; the HTTP layer, the
-- wallet's store, the sessions of channels, escrow and swaps over HTTP, receipts and signatures,
-- which call these parts; the HTTP mounting of the supervision service, the choice of its
-- registration credential, the order of the accounts that one freeze of all names, and balances
-- beyond the column's range; the console programs and the browser interface, which are input and
-- output; the examples and the tests.
pub mod Prelude
pub mod Burn
pub mod Codec
pub mod Lock
pub mod Ledger
pub mod Escrow
pub mod Swap
pub mod Channel
pub mod Wallet
pub mod Clock
pub mod Supervision
mod Tests
