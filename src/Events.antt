-- ===== src/Events.antt =====
-- netfilter/NFEventHandler.hpp and netfilter/NFEventHandler.cpp: the handler of the filter's events,
-- which redirects TCP connections to the proxy and sends UDP datagrams through it.
pub mod Data
pub mod Handler
pub mod Tcp
pub mod Udp
pub mod Posted
pub mod Contexts
pub mod Routes
pub mod Fallback
pub mod Client
pub mod Delivery
pub mod Redirects
pub mod Threads
