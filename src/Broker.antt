-- ===== src/Broker.antt =====
-- broker/main.go: publish and subscribe over lines of text. A client is a number. The map of
-- subscribers is an association list and a set of clients a list, in the order in which Go's loops
-- take them in this run.
pub mod Subscribers
pub mod Lines
pub mod Members
pub mod Tidy
pub mod Delivery
pub mod Protocol
mod Tests
