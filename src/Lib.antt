-- ===== src/Lib.antt =====
-- geata is an HTTP reverse proxy that obtains certificates by itself, limits clients, and can charge for
-- requests in Cashu or over Lightning. This library models the parts of crates/geata/src that decide.
--
-- A request comes to `request_filter` (proxy.rs). The filter finds the site, checks the scheme and the
-- body, and asks the rate limiters (rate_limit.rs) and the site's capacity (config.rs). It then settles a
-- payment that the request carries, which for Cashu is `Payments::collect` (payments/mod.rs) over the
-- ledger (payments/ledger.rs), or uses the free allowance, or asks for a payment. The income is sent on by
-- payouts (payments/payout.rs), which keep their own record in the same ledger.
--
-- Common        lists, options, words, maps, text, and methods that change a state and may fail
-- Net           addresses and `client_key` of crates/geata/src/rate_limit.rs
-- RateLimit     crates/geata/src/rate_limit.rs: `Shard::check` as `check`, in its parts `sweep`, `admit` and
--               `serve`; `check_with_clock` and `with_prefix` of the sharded table
-- Capacity      `Capacity` and `CapacityPermit` of crates/geata/src/config.rs
-- Retry         crates/geata/src/retry.rs
-- Ledger        crates/geata/src/payments/ledger.rs: the database as a record, each method as one transaction
-- Payments      crates/geata/src/payments/mod.rs: `collect` in the steps of `collect_inner`
-- Proxy         crates/geata/src/proxy.rs: `Guards` holds the stages before any payment, `Payment` those that
--               pay, `Filter` the whole `request_filter`, `Forward` the filters after it, `Rejections` the
--               counts of failed requests; the domain of a request is `request_domain` of crates/geata/src/config.rs
-- Payout        crates/geata/src/payments/payout.rs: `automatic_payout`, `pay`, `send_request` and
--               `validate_request`; `Policies` is `PayoutPolicy::parse`
-- Lightning     crates/geata/src/payments/lightning/mod.rs and maintenance.rs: `settle` in `verify` and `claim`,
--               and `prune` of the table of spent payments; `Policies` holds receivers and policies with
--               their parsers, `Terms` the requirements, `L402` the credentials of l402.rs, `Steps` the
--               settlements as steps that interleave
-- Config        crates/geata/src/config.rs: `Tokenizer` is `tokenize`, `Handler` the backends, responses and
--               domains, `Directives` and `Block` `parse_directives`, `Sites` `Config::parse`
-- Url           parsed URLs, the parsers of other packages (`Parsers`), and `parse_mint` of
--               crates/geata/src/payments/mod.rs
-- State         `replace_config` of crates/geata/src/state.rs
-- Cooldown      crates/geata/src/acme_http.rs: `Retry-After` and the requests to the certificate authority
-- Deposits      crates/geata/src/payments/minting.rs: when the record of a mint's quote may be forgotten
-- Admission     the uses of `Capacity` in crates/geata/src/connections.rs and
--               crates/geata/src/payments/lightning/issuance.rs
-- Tests         concrete runs
--
-- How the models correspond to the code. A method that changes its object is a function from the object to
-- an answer and the object; an early return is an error of `Exec`. Times are nanoseconds or seconds as in
-- the source, on natural numbers; a saturating addition is `saturating_add`. What other code answers, the
-- wallet library, mints, disks and clocks, is a record of answers for one call (`Answers`,
-- `PayoutAnswers`), so that a theorem about all answers is about every behaviour of that code. A call may be
-- cancelled where it awaits: the answer `cancelled` ends it there, and a write of the ledger may end
-- `unseen`, committed without its caller. A lock that the source holds over a call makes it one step; the drop of a
-- capacity's permit takes two, and a settlement is verified in one step and claims in a later one. Maps are
-- association lists, whose order nothing reads. Text is the list of its code points where code looks into it.
--
-- Fuel. The loops of `tokenize`, of `parse_directives` and of `Config::parse` that skip more than one item at a
-- turn run on fuel, which is the number of characters or tokens they are given; each turn takes one at
-- least, and running out is the error `out_of_fuel`, which the source does not have. The other loops run
-- over lists. A decimal `u64` has at most 20 digits.
--
-- A bound such as `parse::<u32>` is `parse_uint` with the greatest value. Where an error of another parser is
-- passed on, its own text is not kept, and a message that quotes the input has only its fixed part.
--
-- Bounds. Prices and amounts are natural numbers, since the source adds them only where `checked_add` or the
-- parser has excluded an overflow. Counters that saturate do so at 2^64 - 1.
--
-- Not modelled: the pingora framework, TLS, ACME and storage; Lightning challenges, and the making,
-- collection and recovery of mint quotes, whose answers the filter and the L402 settlement take as they are; the recovery of payouts by the
-- operator (`pending`); connections to backends. Arguments of the models are the parsers of URLs, addresses,
-- JSON strings, invoices, payment headers, payment requests and macaroons, hashes and signatures.
pub mod Common
pub mod Net
pub mod RateLimit
pub mod Capacity
pub mod Retry
pub mod Ledger
pub mod Payments
pub mod Proxy
pub mod Payout
pub mod Lightning
pub mod Admission
pub mod Config
pub mod Url
pub mod State
pub mod Deposits
pub mod Cooldown
mod Tests
