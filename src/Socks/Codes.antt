-- ===== src/Socks/Codes.antt =====
-- netfilter/SOCKS.h: the enumerations, by the value of the byte that carries them.
use Prim.Native.Nat.{ℕ}

-- eSOCKS_VERSION
abbrev pub socks_4 : ℕ
socks_4 = 4

abbrev pub socks_5 : ℕ
socks_5 = 5

-- eSOCKS4_COMMAND, eSOCKS4_RESCODE
abbrev pub s4c_connect : ℕ
s4c_connect = 1

abbrev pub s4rc_success : ℕ
s4rc_success = 0x5a

-- eSOCKS5_COMMAND
abbrev pub s5c_udp_associate : ℕ
s5c_udp_associate = 3

-- eSOCKS5_AUTH_METHOD
abbrev pub s5am_none : ℕ
s5am_none = 0

abbrev pub s5am_unpw : ℕ
s5am_unpw = 2

-- eSOCKS5_ADDRESS_TYPE
abbrev pub socks5_addr_ipv4 : ℕ
socks5_addr_ipv4 = 1

abbrev pub socks5_addr_ipv6 : ℕ
socks5_addr_ipv6 = 4

-- The `sizeof` of the packed structures that the program tests against.
abbrev pub sizeof_auth_response : ℕ
sizeof_auth_response = 2

abbrev pub sizeof_response : ℕ
sizeof_response = 5

abbrev pub sizeof_udp_request : ℕ
sizeof_udp_request = 4

abbrev pub sizeof_udp_request_ipv4 : ℕ
sizeof_udp_request_ipv4 = 10

abbrev pub sizeof_udp_request_ipv6 : ℕ
sizeof_udp_request_ipv6 = 22
