-- ===== src/Sending.antt =====
-- app/tasks/sending.py: the ledger of a campaign, and the send of one recipient.
pub mod Ledger
pub mod Materialize
pub mod SendOne
