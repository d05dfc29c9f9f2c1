-- ===== src/Proxy.antt =====
-- netfilter/UDPProxy.cpp and netfilter/UdpProxy.h: the client of the SOCKS 5 UDP relay.
pub mod Data
pub mod Overlapped
pub mod Send
pub mod Handshake
pub mod Receive
pub mod Connections
pub mod Worker
pub mod Relay
pub mod Queue
pub mod Ownership
pub mod Isolation
pub mod Credentials
pub mod Progress
pub mod Channel
pub mod Threads
