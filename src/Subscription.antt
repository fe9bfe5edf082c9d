-- ===== src/Subscription.antt =====
-- common/src/subscription.rs: subscriptions, their outputs, their client filters and their versions.
pub mod Output
pub mod Filter
pub mod Data
