-- ===== src/Lib.antt =====
-- The backend of the lucky draw shop (apps/backend/src): events (kuji) with seats and prize tiers,
-- orders that claim tickets or buy products, payments, draws, shipments and pickups, the addresses of
-- the users, their sessions and codes.
--
-- How the parts interact. A buyer either asks for a number of tickets, which are drawn later against
-- the inventories, or reserves seats and orders them; the seats know their prizes from the deal. An
-- order passes the gate in Redis (first flow only), then a transaction that claims the tickets of the
-- event. A payment turns the order into a paid one, a draw into a drawn one with a shipment. An order
-- of products takes its stock and waits for a deposit, which an operator confirms; preorders wait in
-- a queue until their goods arrive.
--
-- Files.
-- - Common: helpers on lists, options, tables and keys. A table is a list; `find`, `select`,
--   `count_where` and `update_where` are the queries.
-- - Model: the tables of apps/backend/prisma/schema.prisma, the enums with the comparisons that the
--   services make, and the exceptions as values.
-- - Tx: a transaction, `Db -> Result (A x Db)`; a throw rolls back.
-- - Cipher: the interface of apps/backend/src/crypto/field-cipher.service.ts, as far as the services
--   use it. Its functions are arguments.
-- - Ticket: apps/backend/src/ticket/ticket.service.ts. Slots is validateForSlots, buildSlots and
--   shuffleInPlace; Seed is seedForKuji and reshuffleForKuji; Reserve is reserve, releaseMine and
--   releaseExpired; Grid is listGrid and adminListGrid.
-- - Stock: apps/backend/src/stock/stock.service.ts, reserve with its script, and release. Which calls
--   to Redis answer, and what other clients do in between, is an argument (`Traffic`).
-- - Order: apps/backend/src/order/order.service.ts. Shipping is resolveShipping; Create the two
--   transactions of createTransactional and createWithTicketsTransactional; Place is create with the
--   cache, the lock, the gate and the error paths; Cancel is cancel; View is serializeOrder and findOne;
--   Sound defines the books of an event.
-- - Draw: apps/backend/src/draw/draw.service.ts. Pick is the weighted choice; Inventory is
--   drawOneWithCAS; Result is loadResults, findByOrder and isLastPrizeOrder; Execute is execute and
--   executeForTickets.
-- - Payment: apps/backend/src/payment/payment.service.ts. Effects is applyPaidOrderEffects; Confirm is
--   createIntent, confirm, autoDraw and findByOrder; Webhook, Refund and Deposit are the operations of
--   these names. Books relates them to the books of an event.
-- - Shipment: createForOrderInTx of apps/backend/src/shipment/shipment.service.ts, and update of
--   apps/backend/src/shipment/admin-shipment.controller.ts.
-- - SalesOrder: apps/backend/src/sales-order/sales-order.service.ts. Cart is mergeItems,
--   assertPurchasable, nextReservationSequence and the loop over the items; Write the transaction of
--   createTransactional with resolveShipping; Place is create with the cache, the lock and the key.
-- - AdminOrder: apps/backend/src/payment/admin-order.controller.ts. Preorders is the plan for an arrival
--   and the selection of its targets; Pickups is completePickup; Shipments is updateOrderShipment.
-- - Address: apps/backend/src/address/address.service.ts. Steps puts its operations together with the
--   address that an order of tickets saves.
-- - Auth: apps/backend/src/auth/auth.service.ts. State is what is kept; Sessions is login, refresh,
--   logout, issueTokens and revokeAll; Codes is the codes for a sign-up and for a new password.
-- - System: all these transactions as the steps of one relation on the database (Steps), with
--   what holds along its runs (Invariant); Draws, Payments, Seats and Operators are the single steps.
-- - RateLimit: apps/backend/src/rate-limit/rate-limit.guard.ts (canActivate). Window counts the
--   requests that pass.
-- - Notification: apps/backend/src/notification/notification.service.ts.
-- - Tests: the theorems at work in a small shop.
--
-- Conventions. Identifiers are only compared, so they are numbers; a date is its number of
-- milliseconds. Clocks, random numbers, the identifiers of new rows and the answers of the payment
-- provider are arguments. A row lock is taken for the whole transaction, so a transaction runs in one
-- piece; what other requests commit before it, or between the attempts of a compare-and-swap, is an
-- argument of its own. `random_index` takes the product of a random 32-bit fraction and i + 1 as exact,
-- which holds in double precision while i + 1 is at most 2 ^ 21.
--
-- Bounds. The only loop with a bound is the one of drawOneWithCAS: five attempts, as in the source, and
-- the error that the source throws when they are used up. All other loops are structural. Columns are
-- unbounded numbers here; `soldTickets - n` is the subtraction that stops at 0.
--
-- Not modelled. What calls at the same time do to each other where the source takes no lock: the guesses
-- of a code (GET and SET), the refreshes of a token, and the queue numbers of preorders when two orders
-- are paid (an aggregate and an update). A call of Redis that does not answer but had an effect there.
-- A user's identifier with a wildcard in it. Failures of the database other than unique
-- constraints, failures of Redis in the cache and the lock of an order and in the authentication,
-- the expiry of the keys of a cached order, the audit log, the texts of messages and mails, JSON
-- and logging, seeds and snapshots of draw results beyond their algorithm; the lists of orders and
-- shipments and the statistics; the front ends and the other services (products, the log-in of
-- operators, administration, content). Addresses that an order of products saves are not steps of
-- Address.Steps, since the first of them is no default one.
pub mod Common
pub mod Model
pub mod Tx
pub mod Cipher
pub mod Notification
pub mod Shipment
pub mod Ticket
pub mod Stock
pub mod Order
pub mod Draw
pub mod Payment
pub mod Address
pub mod SalesOrder
pub mod AdminOrder
pub mod RateLimit
pub mod Auth
pub mod System
pub mod Tests
