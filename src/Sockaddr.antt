-- ===== src/Sockaddr.antt =====
-- The Winsock address structures in memory, which the program reads and builds by casts:
-- `sockaddr_in` of 16 bytes and `sockaddr_in6` of 28. Family and port are at one place in both.
use qv_plugin_netfilter.Base.{ℕ, List, ◌++◌, replicate, ◌==◌, if◌then◌else◌}
use qv_plugin_netfilter.Base.Bytes.{get16, get32, slice, le16, le32}

abbrev pub af_inet : ℕ
af_inet = 2

abbrev pub af_inet6 : ℕ
af_inet6 = 23

abbrev pub sizeof_sockaddr_in : ℕ
sizeof_sockaddr_in = 16

abbrev pub sizeof_sockaddr_in6 : ℕ
sizeof_sockaddr_in6 = 28

abbrev pub sa_family : List ℕ → ℕ
sa_family a = get16 0 a

abbrev pub sin_port : List ℕ → ℕ
sin_port a = get16 2 a

abbrev pub sin_addr : List ℕ → ℕ
sin_addr a = get32 4 a

abbrev pub sin6_addr : List ℕ → List ℕ
sin6_addr a = slice 8 16 a

-- A structure that is zeroed, then given its family, address and port.
unfoldable pub sockaddr_in : ℕ → ℕ → List ℕ
sockaddr_in addr port = le16 af_inet ++ (le16 port ++ (le32 addr ++ replicate 8 0))

unfoldable pub sockaddr_in6 : List ℕ → ℕ → List ℕ
sockaddr_in6 addr port = le16 af_inet6 ++ (le16 port ++ (replicate 4 0 ++ (addr ++ replicate 4 0)))

-- The size that the callers of udpSend pass on with an address.
abbrev pub address_length : List ℕ → ℕ
address_length a = if sa_family a == af_inet then sizeof_sockaddr_in else sizeof_sockaddr_in6
