-- ===== src/Socks/Stream.antt =====
-- netfilter/SOCKS.h: the messages on the TCP connection to the proxy.
use qv_plugin_netfilter.Base.{ℕ, List, [], ◌∷◌, ◌++◌}
use qv_plugin_netfilter.Base.Bytes.{byte_at, slice, le16, le32, get16, get32}

pub record Socks4Request : Type 0 where
  pub version : ℕ
  pub command : ℕ
  pub port : ℕ
  pub ip : ℕ
  pub userid : ℕ

unfoldable pub socks4_request_bytes : Socks4Request → List ℕ
socks4_request_bytes r = r.version ∷ r.command ∷ (le16 r.port ++ (le32 r.ip ++ (r.userid ∷ [])))

pub record Socks4Response : Type 0 where
  pub reserved : ℕ
  pub res_code : ℕ
  pub port : ℕ
  pub ip : ℕ

unfoldable pub socks4_response_at : List ℕ → Socks4Response
socks4_response_at m = record {
  reserved = byte_at m 0;
  res_code = byte_at m 1;
  port = get16 2 m;
  ip = get32 4 m;
}

pub record Socks5AuthRequest : Type 0 where
  pub version : ℕ
  pub nmethods : ℕ
  pub method : ℕ

unfoldable pub auth_request_bytes : Socks5AuthRequest → List ℕ
auth_request_bytes r = r.version ∷ r.nmethods ∷ r.method ∷ []

pub record Sock5AuthResponse : Type 0 where
  pub version : ℕ
  pub method : ℕ

unfoldable pub auth_response_at : List ℕ → Sock5AuthResponse
auth_response_at m = record { version = byte_at m 0; method = byte_at m 1 }

pub record Socks5Request : Type 0 where
  pub version : ℕ
  pub command : ℕ
  pub reserved : ℕ
  pub address_type : ℕ
  pub address : ℕ

pub record Socks5RequestIpv4 : Type 0 where
  pub version : ℕ
  pub command : ℕ
  pub reserved : ℕ
  pub address_type : ℕ
  pub address : ℕ
  pub port : ℕ

unfoldable pub request_ipv4_bytes : Socks5RequestIpv4 → List ℕ
request_ipv4_bytes r =
    r.version ∷ r.command ∷ r.reserved ∷ r.address_type ∷ (le32 r.address ++ le16 r.port)

pub record Socks5RequestIpv6 : Type 0 where
  pub version : ℕ
  pub command : ℕ
  pub reserved : ℕ
  pub address_type : ℕ
  pub address : List ℕ
  pub port : ℕ

unfoldable pub request_ipv6_bytes : Socks5RequestIpv6 → List ℕ
request_ipv6_bytes r =
    r.version ∷ r.command ∷ r.reserved ∷ r.address_type ∷ (r.address ++ le16 r.port)

pub record Socks5Response : Type 0 where
  pub version : ℕ
  pub res_code : ℕ
  pub reserved : ℕ
  pub address_type : ℕ
  pub address : ℕ

unfoldable pub response_at : List ℕ → Socks5Response
response_at m = record {
  version = byte_at m 0;
  res_code = byte_at m 1;
  reserved = byte_at m 2;
  address_type = byte_at m 3;
  address = byte_at m 4;
}

pub record Socks5ResponseIpv4 : Type 0 where
  pub version : ℕ
  pub res_code : ℕ
  pub reserved : ℕ
  pub address_type : ℕ
  pub address : ℕ
  pub port : ℕ

unfoldable pub response_ipv4_at : List ℕ → Socks5ResponseIpv4
response_ipv4_at m = record {
  version = byte_at m 0;
  res_code = byte_at m 1;
  reserved = byte_at m 2;
  address_type = byte_at m 3;
  address = get32 4 m;
  port = get16 8 m;
}

pub record Socks5ResponseIpv6 : Type 0 where
  pub version : ℕ
  pub res_code : ℕ
  pub reserved : ℕ
  pub address_type : ℕ
  pub address : List ℕ
  pub port : ℕ

unfoldable pub response_ipv6_at : List ℕ → Socks5ResponseIpv6
response_ipv6_at m = record {
  version = byte_at m 0;
  res_code = byte_at m 1;
  reserved = byte_at m 2;
  address_type = byte_at m 3;
  address = slice 4 16 m;
  port = get16 20 m;
}
