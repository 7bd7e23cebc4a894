-- ===== src/Lib.antt =====
-- A verification library for mostro-ts-client, a TypeScript client of the Mostro peer-to-peer exchange.
--
-- A trade is driven by messages between the client and the daemon. flow.ts builds the client's
-- messages and checks the replies, verify.ts says which messages are well formed, and stateMachine.ts
-- decides which statuses a message may move an order to. applicator.ts applies a decrypted message
-- to the local database through the interface of store.ts, which sqlite.ts and idb.ts implement,
-- with the two sensitive columns encrypted by encryption.ts. orderbook.ts reads the public listings.
-- All of these stand in src/protocol.
--
-- Files, with the code that each models:
--   Kind, Status, Action, CantDo: kind.ts, status.ts with statusSets.ts, action.ts and cantDo.ts.
--     Vocabulary holds the theorems on reading and printing.
--   StateMachine: stateMachine.ts. Guard: shouldApplyStatusTransition as a phase graph.
--   Order: order.ts, the records and the checks of amounts.
--   Message: message.ts, and the records of dispute.ts and user.ts that a message carries.
--   Verify: verify.ts. Fault: what the calls throw; a call that throws returns a Result.
--   Flow: flow.ts. Requests: the builders. Replies: the handlers. Range: computeNextTradePayload,
--     where the reservation of a trade key is a state-passing parameter.
--   Store: store.ts. `Store` is a backend over a state S with the operations on orders, and `IsStore`
--     its laws, in terms of what getOrder returns after each operation and of the rows that store.ts
--     promises; Sqlite and Idb are its two implementations, with rows of their own, and Applicator,
--     Restore and Client are its clients.
--   Encryption: the wrappers of encryption.ts. The ciphers are a parameter, a `FieldEncryptor`, whose
--     two laws are the documented ones: what it encrypts has the sentinel prefix and is decrypted.
--   Sqlite: sqlite.ts. A table is the list of its rows, a statement a function on tables.
--   Idb: idb.ts. An object store is the list of its rows by key; Idb/Table is its get and put. The
--     browser's order of keys is a parameter. Promises run one after another, as the source says.
--   Applicator: applyTradeDm of applicator.ts, over any `Store`. The derivations of keys are
--     parameters. Candidate: the status that a message proposes. Reads: the rows afterwards.
--     Carried: the orders that messages bring. Guarded: what may happen to the row of the order. Refusal: cant-do messages.
--     History: the messages of several orders in sequence.
--   DmRouter: the router of dmRouter.ts, a state and the effects that an event has: resolved waiters
--     and callbacks, both of which are given. Gate: the conditions of handleEvent. Delivery: what it
--     does. The signature check, the decryption with a trade key and the public key of a secret are
--     parameters; the promise of a subscription is run at once.
--   MostroInfo: mostroInfo.ts. Tags: reading an announcement, where a fee is a number of a type that is
--     a parameter. Selection: the authentic announcement. Difficulty: proof of work.
--   Restore: the checks of the two replies and the rebuild of restoreSession in restore.ts, over any
--     `Store` with two operations on users, whose laws are `IsUserStore` in Rebuilt. Summary: the
--     counts. Rebuilt: the trade index. Rows: the rows of the orders.
--   Wire: wire.ts. A JSON value is a `Value`, whose numbers may have fractions; Write is what is sent,
--     and Parts and Read are the readers, whose results (Decoded) keep the texts that the code casts.
--     Typed: the readers on what the writers give. Fits: the messages within the readers' limits.
--     RoundTrip and Bounds: messages. Returns: results of readers.
--   Transport: transport.ts and proof.ts. The ciphers, the signatures and the JSON text are a `Crypto`,
--     whose documented laws are `IsCrypto` in Delivery. Proofs: what an opened message proves.
--   DmRouter/Replay, DmRouter/Replayed: replayTradeDms of dmRouter.ts.
--   Invoice: invoice.ts. Bolt11: the regular expression and the amount; a text is the list of its
--     UTF-16 units. Expiry: the loop over the fields, and the timestamp. Amount, Submit: theorems.
--   Admin: admin.ts. Builders: its messages and replies.
--   Client: client.ts. A `Client` is what MostroClient keeps, over any database. Exchange: the wait
--     for a reply. Requests: the requests of a trade; what the relays deliver after a message is a
--     parameter, and the messages that the router hands on meanwhile are steps of their own.
--     Sending: chat messages and the wait for a listing. Routing: what trackOrder leaves in the
--     router. Chats, Peers, Answers, Cancel, Stored: theorems.
--   Chat: chat.ts. The ciphers, the signatures and the JSON texts are a `ChatCrypto`; the inner event is
--     the JSON value that was parsed, since the source casts it unchecked. Checks: the events that
--     are taken. Delivery: the laws of a ChatCrypto, and the other party.
--   Net: the guards of net.ts, on the UTF-16 units of a host. Lnurl: lnurlpay.ts; the requests and the
--     URL parser are parameters. Resolved: what an invoice of an address guarantees.
--   UiStore: the state of src/react/store.ts and its updates. Updates: trades and chats.
--   OrderBook: orderbook.ts, from tags (Parsing) to the newest snapshots (Latest) and the listings
--     (Listing). What the relays returned is an argument; parseMakerRating reads JSON and is a
--     parameter.
--   Common: numbers, text, lists, sorting and results. Tests: examples.
--
-- Conventions. A `number` of the source is an integer of any size, so the model has neither the
-- rounding of large numbers nor fractions, except in Wire, where a number that is read may have one;
-- the amounts and indices of the protocol are integers.
-- A field that may be null or missing is an Option. Text is compared exactly; `toLowerCase` is exact
-- where its result is compared with ASCII text, and `toUpperCase` on ASCII text. The clock, the
-- random request id and the seed's keys are arguments. The loops of the source go through a list
-- once, and so do the definitions; only the loop over the fields of an invoice runs on fuel, one unit
-- for each character, which is enough, since a round consumes three characters or more.
--
-- Not modelled: the relays themselves, timers and callbacks of the client, HTTP requests and the
-- upload of files, the derivation of keys, the hook for React, the terminal client and the
-- trust-graph extension.
pub mod Chat
pub mod Net
pub mod Lnurl
pub mod Client
pub mod Common
pub mod Kind
pub mod Status
pub mod Action
pub mod CantDo
pub mod Vocabulary
pub mod StateMachine
pub mod Order
pub mod Message
pub mod Fault
pub mod Verify
pub mod Flow
pub mod Store
pub mod Encryption
pub mod Sqlite
pub mod Applicator
pub mod Idb
pub mod OrderBook
pub mod DmRouter
pub mod MostroInfo
pub mod Restore
pub mod Wire
pub mod UiStore
pub mod Transport
pub mod Invoice
pub mod Admin
pub mod Tests
