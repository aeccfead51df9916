-- ===== src/Lib.antt =====
-- EdgePay: the double-entry ledger of a payment platform on Cloudflare Workers.
--
-- Each merchant owns one Durable Object, `LedgerDO` (src/do/ledger-do.ts), which is the only writer
-- of the merchant's book. A posting is validated, recorded and queued in an outbox in one local
-- transaction; an alarm drains the outbox into D1, the platform's SQL database, whose ledger tables
-- are an audit mirror of the books (src/services/ledger-audit.ts).
--
-- Files:
--   Prelude, Prelude/*   library names, Boolean tests, lists, integers over ℕ, dictionaries.
--   Ledger/Types         src/types/ledger.ts: payloads, results, error codes. `Checked` is what a
--                        function that may throw a `PostingValidationError` returns.
--   Ledger/Chart         src/lib/ledger-chart.ts: the chart of accounts.
--   Ledger/Shape         `validatePostingShape`; Shape/Balanced is about its result.
--   Ledger/Book          the rows of the object's tables and the SQL that changes them; Book/Rows and
--                        Book/Journal hold the lemmas.
--   Ledger/Funds         `checkBalances`; Funds/Deltas and Funds/Covered are about its result.
--   Ledger/State         the object's state, the environment it reads, `getMerchantId`.
--   Ledger/Mirror        `buildLedgerAuditStatements`, `writeLedgerAuditTrail` and the D1 tables they
--                        write; Mirror/Replay and Mirror/Marked are about running them.
--   Ledger/Post          `postTransaction`, `postInner`, `kickOutboxAlarm`; Post/Outcome lists the
--                        ways a call ends, Post/Keeps and Post/Replay use that list.
--   Ledger/Invariant     the soundness of a book, and that seeding and committing keep it.
--   Ledger/Trial         the reads; Trial/Sound is about the trial balance.
--   Ledger/Outbox        `drainOutbox` and `markOutboxRetry`; Outbox/Events and Outbox/Delivery are
--                        about delivery, Outbox/Limits about the retry delay and large postings.
--   Ledger/Alarm         `alarm`, `maybeCleanupOutbox`, `scheduleNextAlarm`, `snapshotBalances` and
--                        `outboxStats`; Alarm/Stats, Alarm/Next and Alarm/Sweep are about the report,
--                        the next alarm and a whole run, Alarm/Tests holds runs.
--   Ledger/Tests         runs at concrete inputs.
--
-- How the code is modelled. A method of the object is a function from the state to the new state and
-- the result: `blockConcurrencyWhile` and the input gate make a call one step. `Date.now()` is an
-- argument at each place where the code reads the clock, times are numbers of milliseconds, and a
-- text timestamp is the time it stands for. A SQL table is the list of its rows in the order of their
-- ids. D1 is a parameter: it either takes a batch whole or refuses it whole, as its documentation
-- says of `batch`. JSON text is kept as the value it encodes. An amount is a JavaScript number: a
-- whole one or a fraction. Sums are exact, as JavaScript's are up to 2 ^ 53. Loops are recursion on
-- the list that they walk and need no fuel, except in Asn1 and Refunds/Workflow (below).
--
-- Devices are phones that a merchant pairs; src/services/device-policy.ts decides from their
-- attestation which tier of trust they have, and lets a merchant override the policy for a time.
--   Devices/Policy       `resolvePolicy`, `computeDeviceTier`, `resolveEnforcementMode` and
--                        `shouldBlock`; Policy/Strictest and Policy/Tiers are about them.
--   Devices/Store        the D1 tables of the overrides, and the queries on them.
--   Devices/Overrides    `grantDeviceOverride`, `revokeDeviceOverride`; Overrides/Limits, Revoked and
--                        Lookup are about what they and `lookupActiveOverride` leave or find.
--   Devices/Tests        runs at concrete inputs.
--
--   Idempotency          src/middleware/idempotency.ts: a second request with the key of a first one;
--                        Idempotency/Replayed is about it, Idempotency/Tests holds a run.
--   RateLimit            `perIpRateLimit` of src/middleware/rate-limit.ts; RateLimit/Window is about the
--                        requests of one window, RateLimit/Tests holds runs.
--
-- The services of the worker call the books. The whole of one object with its mirror is
--   Ledger/System        a step relation over postings, drains and alarms; System/Queue is about the
--                        outbox in a posting, System/Drained in a drain, System/Safe about all steps.
--   Money                `toMinorUnits` of src/lib/money.ts; the package decimal.js is a parameter.
--   Posting              `LedgerService.post` and `buildPayload` of src/services/ledger.ts, over the
--                        objects of all merchants; Posting/Entries has the payment and refund entries,
--                        the default chart and the balances. Posting/Accepted, Held, Once and
--                        WellShaped are about posting a payment, Posting/Consistency is
--                        `verifyDurableObjectConsistency`, and Posting/Tests holds runs.
--   Payments             `initiatePayment` and `completeTransaction` of src/services/payment.ts,
--                        Payments/Callback `handleCallback`, Payments/Status
--                        `resolveIntentStatus`. Payments/Backed, Kept and Sound relate completed
--                        payments to the books, Payments/Confirmed is about callbacks.
--   Webhooks             `dispatch` of src/services/webhook-dispatcher.ts, `process` and `processOne` of
--                        src/queues/webhook-consumer.ts; Webhooks/Delays is about retries.
--   Asn1                 the DER parser of src/lib/asn1.ts, on lists of bytes; Asn1/Values its
--                        decoders. Fuel bounds the depth and the rounds of the loop over children;
--                        more fuel than bytes is enough where no byte is 0x84 (Asn1/Lengths,
--                        Asn1/Settled). Asn1/Oids and Asn1/Integers are about the decoders.
--   Refunds              `createRefund` of src/services/refund.ts, statement by statement;
--                        Refunds/Bounded is about calls that overlap. Refunds/Workflow is
--                        src/workflows/refund-reconciliation.ts, whose loop has 52 rounds, and
--                        Workflow/Finished is about a run of it.
--   Sms                  `corroborateSmsPayment` of src/services/sms-corroboration.ts;
--                        Sms/Corroborated is about the orders that it confirms.
--   Hierarchy            `HierarchyService` of src/services/hierarchy.ts: brands and stores, and in
--                        Hierarchy/Gates the gates; Hierarchy/Api its routes in
--                        src/controllers/api.ts; Hierarchy/Owned is about the owners of stores and
--                        gates, Hierarchy/Provision about the default brand and store.
--   Intents              `createIntent` of src/services/payment.ts, and in Intents/Page the gates
--                        on the page of src/controllers/checkout.ts. Intents/Requests is a sequence of requests of any
--                        merchants; Intents/Isolated and Offered are about what they leave and show.
--   Reconciliation       src/services/reconciliation.ts: the replay of pending postings, whose whole
--                        pass is Reconciliation/Pass; Reconciliation/Refunds is the sweep of
--                        refunds, Reconciliation/Run the whole run. Replay, Counts, Keeps, Refunds/Bounded and Run/Keeps are about them.
--   Inbound              `POST /webhook/{gateway}` of src/controllers/webhooks.ts; Inbound/Taken is about
--                        the deliveries that complete a payment or fail, with Inbound/Admitted and
--                        Recorded. Inbound/SmsQueue is `processOne`
--                        of src/queues/sms-consumer.ts, and Inbound/Matched is about it; Inbound/Backed
--                        is about webhooks, SMS, initiations and callbacks in any order.
-- What a gateway's adapter, an endpoint or a platform service answers is an argument of the step that
-- asks it.
--
-- Not modelled: HTTP routing and middleware, the adapters to payment providers, WebCrypto, the
-- frontend, the installer; and the parsing of SMS.
pub mod Prelude
pub mod Ledger
pub mod Devices
pub mod Idempotency
pub mod RateLimit
pub mod Money
pub mod Posting
pub mod Webhooks
pub mod Payments
pub mod Refunds
pub mod Sms
pub mod Asn1
pub mod Hierarchy
pub mod Inbound
pub mod Intents
pub mod Reconciliation
