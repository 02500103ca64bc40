-- ===== src/Channel.antt =====
-- channel.py: the in-process channel, _Send and _Recv around the two ends of an anyio memory stream.
pub mod Endpoint
pub mod Exclusive
pub mod Stream
pub mod Stats
pub mod Traffic
