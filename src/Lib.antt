-- ===== src/Lib.antt =====
-- A shop in Telegram: users top up a balance, buy digital goods singly or from a cart, use promo
-- codes, and are paid bonuses for the users they refer. This library models the part of the program
-- that decides about money, stock and access.
--
-- The parts and their files:
--   * Models: the tables of bot/database/models/main.py as records, amounts in cents.
--   * Store: the database as lists of rows, and `Database.session` of bot/database/main.py as commit
--     or rollback. An error of the database is an argument (`Fault`): it strikes before the block has
--     decided anything or after it has written all, since the rollback hides what lies between.
--   * Pricing: bot/database/methods/pricing.py and `_split_amount`. Decimals are integers of cents,
--     `quantize` rounds a fraction to the nearest cent, a tie to the even one.
--   * Promo: `promo_rule_error` and `validate_promo_for_item` of bot/database/methods/read.py, and the
--     operations on promo codes of create.py, update.py and delete.py beside it.
--   * Transactions: bot/database/methods/transactions.py, a child for each transaction: Buy
--     (`buy_item_transaction`), Payment (`process_payment_with_referral`), Adjust
--     (`admin_balance_change`, `redeem_balance_promo`), Checkout with Fulfil
--     (`checkout_cart_transaction`). Accounts and Stock hold the rows that they share.
--   * Cart: the lines of a cart, from create.py, update.py, delete.py and read.py.
--   * Models/Permission and Roles: permission masks, and the roles of create.py, update.py, delete.py
--     and read.py.
--   * RateLimit: the limiter in memory and the middleware of bot/middleware/rate_limit.py.
--   * Guards: the login limiter of bot/web/admin.py and the circuit breaker of
--     bot/misc/services/payment.py.
--   * Broadcast: bot/misc/services/broadcast_system.py.
--   * Paginator: bot/misc/lazy_paginator.py.
--   * Cache: `CacheManager` of bot/misc/caching/cache.py, with Redis (Server) as a parameter: what is
--     invalidated, deferred and replayed, and what an exception that is only logged loses.
--   * RoleManagement: the dialogue of bot/handlers/admin/role_management.py as a state machine over the
--     roles, and the assignment of a role (Assign) with the payload of its button (Payload).
--   * Catalog: categories, products and stock of create.py, update.py and delete.py, with the deletions
--     that foreign keys add and the renames that a unique constraint refuses; Waiting, the restock subscriptions, with the set that they stand for.
--   * Gacha: `spin_gacha_for_user` of bot/database/methods/gacha.py.
--   * Recovery: a round of `recover_pending_payments` of bot/misc/services/recovery.py.
--   * Security: the two gates of bot/middleware/security.py in the order of bot/main.py, and the cache
--     of roles. The limits of rates, which the chain has too, are in RateLimit.
--   * Prelude: shared names and lemmas. Tests: the theorems on a small shop.
--
-- A transaction is a function from the tables to a result, `err` for an exception; the locks that it
-- takes make it run alone on the rows it reads, so that transactions follow one another. What the
-- program draws from outside is an argument: the clock, unique ids, errors of the database, answers of
-- Telegram, lost races. Retries are recursion on the number of attempts that are left, three as in
-- the source. The batches of a mailing run on fuel, the number of users, of which each batch takes
-- one at least. Times and ids are natural numbers, texts are lists of code points,
-- and `upper` is that of ASCII. A cursor without an order gives the rows in the order of the table.
--
-- Not modelled: the other dialogues, the views of the web administration, HTTP clients, the migrations,
-- reviews and content pages, and the limiter on Redis. Of Redis,
-- Telegram, `json`, `Decimal` and `random` the parts above take the answers as parameters, with what is
-- documented of them as hypotheses.
pub mod Prelude
pub mod Models
pub mod Pricing
pub mod Store
pub mod Promo
pub mod Transactions
pub mod Cart
pub mod Roles
pub mod RateLimit
pub mod Broadcast
pub mod Paginator
pub mod Guards
pub mod Cache
pub mod RoleManagement
pub mod Catalog
pub mod Gacha
pub mod Security
pub mod Recovery
pub mod Tests
