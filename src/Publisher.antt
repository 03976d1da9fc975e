-- ===== src/Publisher.antt =====
-- components/publisher/publisher.cpp: frames are packed into batches, and batches sent to Redis.
-- Serialize models the packing (lines 193 to 225), Batching the rest of `batching_loop`, Sender
-- `publisher_loop`, and Connection utils/redis_client.h.
pub mod Memory
pub mod Serialize
pub mod Convert
pub mod Layout
pub mod Decode
pub mod Blob
pub mod Batching
pub mod Accounts
pub mod Rounds
pub mod Conservation
pub mod Shutdown
pub mod Connection
pub mod Sender
pub mod Sending
pub mod Delivery
pub mod Losses
pub mod Ledger
mod SenderTests
pub mod Tests
