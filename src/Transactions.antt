-- ===== src/Transactions.antt =====
-- bot/database/methods/transactions.py, one child for each transaction.
pub mod Accounts
pub mod Stock
pub mod Buy
pub mod Payment
pub mod Adjust
pub mod Fulfil
pub mod Checkout
pub mod Solvency
