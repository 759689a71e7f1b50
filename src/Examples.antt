-- ===== src/Examples.antt =====
-- Runs of the model on small inputs, and an instance of each theorem that has hypotheses.
pub mod Data
pub mod Sends
pub mod Events
pub mod Policies
pub mod Lifecycle
pub mod Contacts
pub mod Whole
pub mod Pages
