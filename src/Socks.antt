-- ===== src/Socks.antt =====
-- netfilter/SOCKS.h: the constants and the packed structures of the SOCKS 4 and 5 messages.
-- A structure has a reader, for the casts `(T *) &buffer[0]`, and, where the program writes it, its
-- bytes. Ports and IPv4 addresses stay in the byte order in which they lie in memory.
mod Codes
mod Stream
mod Datagram
pub mod Layout
pub use Codes.*
pub use Stream.{
  Socks4Request, Socks4Response, Socks5AuthRequest, Sock5AuthResponse, Socks5Request,
  Socks5RequestIpv4, Socks5RequestIpv6, Socks5Response, Socks5ResponseIpv4, Socks5ResponseIpv6,
}
unfoldable pub use Stream.{
  socks4_request_bytes, socks4_response_at, auth_request_bytes, auth_response_at,
  request_ipv4_bytes, request_ipv6_bytes, response_at, response_ipv4_at, response_ipv6_at,
}
pub use Datagram.{Socks5UdpRequest, Socks5UdpRequestIpv4, Socks5UdpRequestIpv6}
unfoldable pub use Datagram.{
  udp_request_at, udp_request_ipv4_bytes, udp_request_ipv4_at, udp_request_ipv6_bytes,
  udp_request_ipv6_at,
}
