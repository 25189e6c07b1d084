-- ===== src/Collab.antt =====
-- services/dtbcollabmgr/src/channel_manager: the byte channel of a collaboration.
pub mod Header
pub mod Receiver
pub mod Sender
