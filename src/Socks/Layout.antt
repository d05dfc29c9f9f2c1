-- ===== src/Socks/Layout.antt =====
-- The packed layout of netfilter/SOCKS.h: what is written through one structure is read back
-- through the same one, and through the shorter one that the program casts to first.
use mathlib.Core.List.{append_assoc}
use qv_plugin_netfilter.Base.{
  ℕ, ◌<◌, ◌≡◌, refl, List, ◌++◌, arith, length, take-append, get_or-append,
}
use qv_plugin_netfilter.Base.Bytes.{le16, le16_value, le32_value}
use qv_plugin_netfilter.Socks.Datagram.{
  Socks5UdpRequestIpv4, udp_request_at, udp_request_ipv4_bytes, udp_request_ipv4_at,
  Socks5UdpRequestIpv6, udp_request_ipv6_bytes, udp_request_ipv6_at,
}

-- The short header shows the address type of either form.
pub address_type-ipv4_bytes :
    (r : Socks5UdpRequestIpv4) (rest : List ℕ)
    → (udp_request_at (udp_request_ipv4_bytes r ++ rest)).address_type ≡ r.address_type
unfolding udp_request_at udp_request_ipv4_bytes
address_type-ipv4_bytes r rest = refl

pub address_type-ipv6_bytes :
    (r : Socks5UdpRequestIpv6) (rest : List ℕ)
    → (udp_request_at (udp_request_ipv6_bytes r ++ rest)).address_type ≡ r.address_type
unfolding udp_request_at udp_request_ipv6_bytes
address_type-ipv6_bytes r rest = refl

pub udp_request_ipv4_at-bytes :
    (r : Socks5UdpRequestIpv4) (rest : List ℕ)
    → r.reserved < 65536
    → r.address < 4294967296
    → r.port < 65536
    → udp_request_ipv4_at (udp_request_ipv4_bytes r ++ rest) ≡ r
unfolding udp_request_ipv4_at udp_request_ipv4_bytes
udp_request_ipv4_at-bytes r rest h a p =
    ground (arith, le16_value r.reserved, le16_value r.port, le32_value r.address)

pub udp_request_ipv6_at-bytes :
    (r : Socks5UdpRequestIpv6) (rest : List ℕ)
    → r.reserved < 65536
    → length r.address ≡ 16
    → r.port < 65536
    → udp_request_ipv6_at (udp_request_ipv6_bytes r ++ rest) ≡ r
unfolding udp_request_ipv6_at udp_request_ipv6_bytes
udp_request_ipv6_at-bytes r rest h a p = rw (append_assoc r.address (le16 r.port) rest) (
    ground (
      arith,
      le16_value r.reserved,
      le16_value r.port,
      take-append 16 r.address (le16 r.port ++ rest) a,
      get_or-append 16 0 r.address (le16 r.port ++ rest) 0 a,
      get_or-append 16 1 r.address (le16 r.port ++ rest) 0 a,
    ))
