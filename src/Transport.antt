-- ===== src/Transport.antt =====
-- services/dtbschedmgr/src/softbus_adapter/transport: the channel between two devices.
pub mod Header
pub mod Receiver
pub mod Sender
pub mod Packets
pub mod Filling
pub mod Delivery
pub mod Safety
pub mod Oversize
pub mod Adapter
pub mod Progress
