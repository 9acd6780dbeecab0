-- ===== src/Bus.antt =====
-- The event bus (bus/): envelopes, the ledger, the dispatcher and the service.
pub mod Value
pub mod Model
pub mod TypeMatch
pub mod Ledger
pub mod Server
pub mod Envelope
pub mod Delivery
pub mod Dispatch
pub mod Service
