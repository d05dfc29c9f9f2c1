-- ===== src/Proxy/Channel/Padding.antt =====
-- The address that udpSend of netfilter/UDPProxy.cpp copies into a queued packet names the same host
-- and port as the one it was given.
use qv_plugin_netfilter.Base.{
  ℕ, zero, suc, ◌≤◌, ◌<◌, ◌≡◌, refl, ap, inl, inr, Bool-cases, List, [], ◌∷◌, ◌++◌, arith, ◌==◌,
  length, take, drop, replicate, get_or,
}
use qv_plugin_netfilter.Base.Bytes.{byte_at, overwrite}
use qv_plugin_netfilter.Sockaddr.{address_length, sa_family, af_inet}
use qv_plugin_netfilter.Proxy.Send.{relay_datagram}

get_or-take :
    (n i : ℕ) (xs ys : List ℕ)
    → i < n
    → n ≤ length xs
    → get_or (take n xs ++ ys) i 0 ≡ get_or xs i 0
get_or-take zero i xs ys h l = absurd (omega arith)
get_or-take (suc n) i [] ys h l = absurd (omega arith)
get_or-take (suc n) zero (x ∷ xs) ys h l = refl
get_or-take (suc n) (suc i) (x ∷ xs) ys h l = get_or-take n i xs ys (omega arith) (omega arith)

take_all : (n : ℕ) (xs : List ℕ) → length xs ≡ n → take n xs ++ drop n (replicate n 0) ≡ xs
take_all zero [] h = refl
take_all zero (x ∷ xs) h = absurd (omega arith)
take_all (suc n) [] h = absurd (omega arith)
take_all (suc n) (x ∷ xs) h = ap (◌∷◌ x) (take_all n xs (omega arith))

length-take_of : (n : ℕ) (xs : List ℕ) → n ≤ length xs → length (take n xs) ≡ n
length-take_of zero xs h = refl
length-take_of (suc n) [] h = absurd (omega arith)
length-take_of (suc n) (x ∷ xs) h = ap suc (length-take_of n xs (omega arith))

module _ (addr : List ℕ) (l : length addr ≡ 28) where
  -- The first bytes of the copy, where it has at least 8.
  same_byte :
      (n i : ℕ) (ys : List ℕ) → i < n → n ≤ 28 → byte_at (take n addr ++ ys) i ≡ byte_at addr i
  same_byte n i ys h k = get_or-take n i addr ys h (omega arith)

  relay-short :
      (b : ℕ) (bs ys : List ℕ)
      → sa_family addr ≡ af_inet
      → relay_datagram (take 16 addr ++ ys) (b ∷ bs) ≡ relay_datagram addr (b ∷ bs)
  unfolding relay_datagram
  relay-short b bs ys f = ground (
    arith,
    same_byte 16 0 ys (omega arith) (omega arith),
    same_byte 16 1 ys (omega arith) (omega arith),
    same_byte 16 2 ys (omega arith) (omega arith),
    same_byte 16 3 ys (omega arith) (omega arith),
    same_byte 16 4 ys (omega arith) (omega arith),
    same_byte 16 5 ys (omega arith) (omega arith),
    same_byte 16 6 ys (omega arith) (omega arith),
    same_byte 16 7 ys (omega arith) (omega arith),
  )

  pub relay_datagram-padded :
      (b : ℕ) (bs : List ℕ)
      → relay_datagram (overwrite (replicate 28 0) (take (address_length addr) addr)) (b ∷ bs)
        ≡ relay_datagram addr (b ∷ bs)
  relay_datagram-padded b bs = elim (Bool-cases (sa_family addr == af_inet)) [
    | inl v4 ↦ rw v4 (relay-short b bs _ (ground (arith, v4)))
    | inr v6 ↦ rw (v6, length-take_of 28 addr (omega arith), take_all 28 addr l) refl
  ]
