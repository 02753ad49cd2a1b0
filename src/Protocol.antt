-- ===== src/Protocol.antt =====
-- shared/Protocol.h and shared/Protocol.cpp: the wire format of the packets. `Words` has the byte
-- order, `Packet` the field lists and their (de)serialisation, `Factory` the packet classes and
-- the factory that makes them. `RoundTrip`, `Bounds`, `Dispatch` and `Delivery` have the proofs.
pub mod Words
pub mod Packet
pub mod Factory
pub mod RoundTrip
pub mod Bounds
pub mod Dispatch
pub mod Delivery
