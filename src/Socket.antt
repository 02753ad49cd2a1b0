-- ===== src/Socket.antt =====
-- shared/Socket.h and shared/Socket.cpp. `State` has the members and the queries, `Open` the
-- constructors, `Transfer` SendPacket and GetData, `Receive` HasActivity and GetPacket. `Stream`,
-- `Ending`, `Parsing`, `Delivery` and `Fresh` have the proofs.
pub mod State
pub mod Open
pub mod Transfer
pub mod Receive
pub mod Stream
pub mod Ending
pub mod Parsing
pub mod Delivery
pub mod Fresh
