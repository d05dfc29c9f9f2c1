-- ===== src/Socks/Datagram.antt =====
-- netfilter/SOCKS.h: the header of a datagram that goes through the relay.
use qv_plugin_netfilter.Base.{ℕ, List, ◌∷◌, ◌++◌}
use qv_plugin_netfilter.Base.Bytes.{byte_at, slice, le16, le32, get16, get32}

pub record Socks5UdpRequest : Type 0 where
  pub reserved : ℕ
  pub frag : ℕ
  pub address_type : ℕ

unfoldable pub udp_request_at : List ℕ → Socks5UdpRequest
udp_request_at m = record { reserved = get16 0 m; frag = byte_at m 2; address_type = byte_at m 3 }

pub record Socks5UdpRequestIpv4 : Type 0 where
  pub reserved : ℕ
  pub frag : ℕ
  pub address_type : ℕ
  pub address : ℕ
  pub port : ℕ

unfoldable pub udp_request_ipv4_bytes : Socks5UdpRequestIpv4 → List ℕ
udp_request_ipv4_bytes r =
    le16 r.reserved ++ (r.frag ∷ r.address_type ∷ (le32 r.address ++ le16 r.port))

unfoldable pub udp_request_ipv4_at : List ℕ → Socks5UdpRequestIpv4
udp_request_ipv4_at m = record {
  reserved = get16 0 m;
  frag = byte_at m 2;
  address_type = byte_at m 3;
  address = get32 4 m;
  port = get16 8 m;
}

pub record Socks5UdpRequestIpv6 : Type 0 where
  pub reserved : ℕ
  pub frag : ℕ
  pub address_type : ℕ
  pub address : List ℕ
  pub port : ℕ

unfoldable pub udp_request_ipv6_bytes : Socks5UdpRequestIpv6 → List ℕ
udp_request_ipv6_bytes r = le16 r.reserved ++ (r.frag ∷ r.address_type ∷ (r.address ++ le16 r.port))

unfoldable pub udp_request_ipv6_at : List ℕ → Socks5UdpRequestIpv6
udp_request_ipv6_at m = record {
  reserved = get16 0 m;
  frag = byte_at m 2;
  address_type = byte_at m 3;
  address = slice 4 16 m;
  port = get16 20 m;
}
