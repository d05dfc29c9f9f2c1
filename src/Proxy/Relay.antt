-- ===== src/Proxy/Relay.antt =====
-- The datagrams that go through the relay: what udpSend of netfilter/UDPProxy.cpp wraps, and what
-- onUdpReceiveComplete takes the header off.
use mathlib.Core.List.{append_assoc}
use qv_plugin_netfilter.Base.{
  ℕ, zero, suc, ◌+◌, ◌-◌, ◌^◌, ◌≤◌, ◌<◌, ◌==◌, if◌then◌else◌, Bool-cases, inl, inr, ◌≡◌, ◌≢◌, refl,
  ap, List, [], ◌∷◌, ◌++◌, arith, length, length-append, drop, drop-append, length-drop, take,
}
use qv_plugin_netfilter.Base.Bytes.{AreBytes, byte_at}
use qv_plugin_netfilter.Base.Int.{pos, negsuc, to_int, sub_size}
use qv_plugin_netfilter.Socks.{
  socks5_addr_ipv4, socks5_addr_ipv6, Socks5UdpRequestIpv4, Socks5UdpRequestIpv6, udp_request_at,
  udp_request_ipv4_at, udp_request_ipv4_bytes, udp_request_ipv6_bytes,
}
use qv_plugin_netfilter.Socks.Layout.{
  address_type-ipv4_bytes, address_type-ipv6_bytes, udp_request_ipv4_at-bytes,
  udp_request_ipv6_at-bytes,
}
use qv_plugin_netfilter.Sockaddr.{
  af_inet, sa_family, sin_addr, sin_port, sin6_addr, sockaddr_in, sockaddr_in6, sizeof_sockaddr_in,
  sizeof_sockaddr_in6,
}
use qv_plugin_netfilter.Proxy.Send.{relay_datagram}
use qv_plugin_netfilter.Proxy.Receive.{UdpProxyHandler, deliver}

byte_lt : (m : List ℕ) (i : ℕ) → AreBytes m → byte_at m i < 256
byte_lt [] i h = omega arith
byte_lt (x ∷ xs) zero h = h.0
byte_lt (x ∷ xs) (suc i) h = byte_lt xs i h.1

pub sin_port-lt : (a : List ℕ) → AreBytes a → sin_port a < 65536
sin_port-lt a h = omega (arith, byte_lt a 2 h, byte_lt a 3 h)

pub sin_addr-lt : (a : List ℕ) → AreBytes a → sin_addr a < 4294967296
sin_addr-lt a h = omega (arith, byte_lt a 4 h, byte_lt a 5 h, byte_lt a 6 h, byte_lt a 7 h)

to_int_sub : (n k : ℕ) → n < 2 ^ 31 → k < 256 → to_int (sub_size (k + n) k) ≡ pos n
to_int_sub n k h hk = ground arith

length-ipv4_bytes : (r : Socks5UdpRequestIpv4) → length (udp_request_ipv4_bytes r) ≡ 10
unfolding udp_request_ipv4_bytes
length-ipv4_bytes r = refl

length-ipv6_bytes :
    (r : Socks5UdpRequestIpv6) → length r.address ≡ 16 → length (udp_request_ipv6_bytes r) ≡ 22
unfolding udp_request_ipv6_bytes
length-ipv6_bytes r h = omega (arith, length-append r.address _)

to_int_short : (n : ℕ) → 4 < n → n < 10 → to_int (sub_size n 10) ≡ negsuc (9 - n)
to_int_short n lo hi = ground arith

length-take : (n : ℕ) (xs : List ℕ) → n ≤ length xs → length (take n xs) ≡ n
length-take zero xs h = refl
length-take (suc n) [] h = absurd (omega arith)
length-take (suc n) (x ∷ xs) h = ap suc (length-take n xs (omega arith))

length-sin6_addr : (a : List ℕ) → length a ≡ 28 → length (sin6_addr a) ≡ 16
length-sin6_addr a h = length-take 16 (drop 8 a) (omega (arith, length-drop {0} 8 a))

-- The headers that udpSend writes.
abbrev ipv4_header : List ℕ → Socks5UdpRequestIpv4
ipv4_header addr = record {
  reserved = 0;
  frag = 0;
  address_type = socks5_addr_ipv4;
  address = sin_addr addr;
  port = sin_port addr;
}

abbrev ipv6_header : List ℕ → Socks5UdpRequestIpv6
ipv6_header addr = record {
  reserved = 0;
  frag = 0;
  address_type = socks5_addr_ipv6;
  address = sin6_addr addr;
  port = sin_port addr;
}

module _ (h : UdpProxyHandler) (id : ℕ) where
  deliver_ipv4 :
      (r : Socks5UdpRequestIpv4) (body : List ℕ) (n : ℕ)
      → r.address_type ≡ socks5_addr_ipv4
      → r.reserved < 65536
      → r.address < 4294967296
      → r.port < 65536
      → n < 2 ^ 31
      → deliver h (10 + n) id (udp_request_ipv4_bytes r ++ body)
        ≡ h.on_udp_receive_complete id body
            (pos n)
            (sockaddr_in r.address r.port)
            sizeof_sockaddr_in
  unfolding deliver
  deliver_ipv4 r body n t hr ha hp hn = ground (
    arith,
    address_type-ipv4_bytes r body,
    udp_request_ipv4_at-bytes r body hr ha hp,
    drop-append 10 (udp_request_ipv4_bytes r) body (length-ipv4_bytes r),
    to_int_sub n 10 hn,
  )

  deliver_ipv6 :
      (r : Socks5UdpRequestIpv6) (body : List ℕ) (n : ℕ)
      → r.address_type ≡ socks5_addr_ipv6
      → r.reserved < 65536
      → length r.address ≡ 16
      → r.port < 65536
      → n < 2 ^ 31
      → deliver h (22 + n) id (udp_request_ipv6_bytes r ++ body)
        ≡ h.on_udp_receive_complete id body
            (pos n)
            (sockaddr_in6 r.address r.port)
            sizeof_sockaddr_in6
  unfolding deliver
  deliver_ipv6 r body n t hr ha hp hn = ground (
    arith,
    address_type-ipv6_bytes r body,
    udp_request_ipv6_at-bytes r body hr ha hp,
    drop-append 22 (udp_request_ipv6_bytes r) body (length-ipv6_bytes r ha),
    to_int_sub n 22 hn,
  )

  -- A datagram that was wrapped for an IPv4 address, of at least one and fewer than 2^31 bytes,
  -- is handed back whole, with the address and port it was sent to.
  pub deliver-relay_datagram_ipv4 :
      (addr : List ℕ) (b : ℕ) (bs rest : List ℕ)
      → AreBytes addr
      → sa_family addr ≡ af_inet
      → length (b ∷ bs) < 2 ^ 31
      → deliver h (length (relay_datagram addr (b ∷ bs))) id (relay_datagram addr (b ∷ bs) ++ rest)
        ≡ h.on_udp_receive_complete id
            ((b ∷ bs) ++ rest)
            (pos (length (b ∷ bs)))
            (sockaddr_in (sin_addr addr) (sin_port addr))
            sizeof_sockaddr_in
  unfolding relay_datagram
  deliver-relay_datagram_ipv4 addr b bs rest ab fam n = ground (
    arith,
    append_assoc (udp_request_ipv4_bytes (ipv4_header addr)) (b ∷ bs) rest,
    length-append (udp_request_ipv4_bytes (ipv4_header addr)) (b ∷ bs),
    length-ipv4_bytes (ipv4_header addr),
    deliver_ipv4 (ipv4_header addr) ((b ∷ bs) ++ rest) (length (b ∷ bs)) refl (omega arith)
        (sin_addr-lt addr ab) (sin_port-lt addr ab) n,
  )

  -- A datagram that was wrapped for an address of 28 bytes, of any other family than IPv4, of at
  -- least one and fewer than 2^31 bytes, is handed back whole, with the IPv6 address and port it was
  -- sent to.
  pub deliver-relay_datagram_ipv6 :
      (addr : List ℕ) (b : ℕ) (bs rest : List ℕ)
      → AreBytes addr
      → sa_family addr ≢ af_inet
      → length addr ≡ 28
      → length (b ∷ bs) < 2 ^ 31
      → deliver h (length (relay_datagram addr (b ∷ bs))) id (relay_datagram addr (b ∷ bs) ++ rest)
        ≡ h.on_udp_receive_complete id
            ((b ∷ bs) ++ rest)
            (pos (length (b ∷ bs)))
            (sockaddr_in6 (sin6_addr addr) (sin_port addr))
            sizeof_sockaddr_in6
  unfolding relay_datagram
  deliver-relay_datagram_ipv6 addr b bs rest ab fam l n = ground (
    arith,
    append_assoc (udp_request_ipv6_bytes (ipv6_header addr)) (b ∷ bs) rest,
    length-append (udp_request_ipv6_bytes (ipv6_header addr)) (b ∷ bs),
    length-ipv6_bytes (ipv6_header addr),
    length-sin6_addr addr l,
    deliver_ipv6 (ipv6_header addr) ((b ∷ bs) ++ rest) (length (b ∷ bs)) refl (omega arith)
        (length-sin6_addr addr l) (sin_port-lt addr ab) n,
  )

  -- A datagram that was wrapped for an address of 28 bytes, of at least one and fewer than 2^31
  -- bytes, is handed back whole, with the address and port that it was sent to: in a sockaddr_in if
  -- the address was of the family AF_INET, and in a sockaddr_in6 if it was of any other.
  pub deliver-relay_datagram :
      (addr : List ℕ) (b : ℕ) (bs rest : List ℕ)
      → AreBytes addr
      → length addr ≡ 28
      → length (b ∷ bs) < 2 ^ 31
      → deliver h (length (relay_datagram addr (b ∷ bs))) id (relay_datagram addr (b ∷ bs) ++ rest)
        ≡ (if sa_family addr == af_inet
            then h.on_udp_receive_complete id
                ((b ∷ bs) ++ rest)
                (pos (length (b ∷ bs)))
                (sockaddr_in (sin_addr addr) (sin_port addr))
                sizeof_sockaddr_in
            else h.on_udp_receive_complete id
                ((b ∷ bs) ++ rest)
                (pos (length (b ∷ bs)))
                (sockaddr_in6 (sin6_addr addr) (sin_port addr))
                sizeof_sockaddr_in6)
  deliver-relay_datagram addr b bs rest ab l n = elim (Bool-cases (sa_family addr == af_inet)) [
    | inl e ↦ rw e (deliver-relay_datagram_ipv4 addr b bs rest ab (ground arith) n)
    | inr e ↦ rw e (deliver-relay_datagram_ipv6 addr b bs rest ab (ground arith) l n)
  ]

  -- A datagram of 5 to 9 bytes that claims an IPv4 address is handed on with a negative length, and
  -- an address read from behind its end.
  pub deliver_short :
      (transferred : ℕ) (buffer : List ℕ)
      → 4 < transferred
      → transferred < 10
      → (udp_request_at buffer).address_type ≡ socks5_addr_ipv4
      → deliver h transferred id buffer
        ≡ h.on_udp_receive_complete id
            (drop 10 buffer)
            (negsuc (9 - transferred))
            (sockaddr_in (udp_request_ipv4_at buffer).address (udp_request_ipv4_at buffer).port)
            sizeof_sockaddr_in
  unfolding deliver
  deliver_short transferred buffer lo hi t = ground (arith, to_int_short transferred lo hi)
