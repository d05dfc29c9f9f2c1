-- ===== src/Proxy/Credentials.antt =====
-- The user name and password message that onTcpReceiveComplete of netfilter/UDPProxy.cpp sends,
-- read as RFC 1929 says: version 1, a length and the name, a length and the password.
use mathlib.Core.List.{append-nil}
use qv_plugin_netfilter.Base.{
  ℕ, zero, suc, ◌%◌, ◌≤◌, ◌<◌, ◌≡◌, refl, ap, Option, none, some, List, [], ◌∷◌, ◌++◌, ◌==◌, leb,
  if◌then◌else◌, arith, length, take, drop, take-append, drop-append, length-append,
}
use qv_plugin_netfilter.Proxy.Handshake.{credentials}

-- A field with its length in front, and what follows it.
unfoldable pub read_field : List ℕ → Option (List ℕ × List ℕ)
read_field [] = none
read_field (n ∷ m) = if leb n (length m) then some (take n m, drop n m) else none

-- The password is the rest of the message.
unfoldable pub read_password : List ℕ → Option (List ℕ × List ℕ) → Option (List ℕ × List ℕ)
read_password name (some (password, [])) = some (name, password)
read_password name _ = none

read_name : Option (List ℕ × List ℕ) → Option (List ℕ × List ℕ)
unfolding read_password
read_name none = none
read_name (some (name, rest)) = read_password name (read_field rest)

-- The server's view of the message: the name and the password, or that it is malformed.
unfoldable pub read_credentials : List ℕ → Option (List ℕ × List ℕ)
unfolding read_name
read_credentials [] = none
read_credentials (v ∷ m) = if v == 1 then read_name (read_field m) else none

read_field-append :
    (xs ys : List ℕ) → length xs < 256 → read_field ((length xs % 256) ∷ (xs ++ ys)) ≡ some (xs, ys)
unfolding read_field
read_field-append xs ys h = ground (
  arith,
  length-append xs ys,
  take-append (length xs) xs ys refl,
  drop-append (length xs) xs ys refl,
)

-- A user name and a password of at most 255 bytes each reach the server as they are.
pub read_credentials-credentials :
    (name password : List ℕ)
    → length name ≤ 255
    → length password ≤ 255
    → read_credentials (credentials name password) ≡ some (name, password)
unfolding read_credentials credentials read_name read_password
read_credentials-credentials name password hn hp = ground (
  arith,
  read_field-append name ((length password % 256) ∷ password),
  read_field-append password [],
  append-nil password,
)

take-append_le : (n : ℕ) (xs ys : List ℕ) → n ≤ length xs → take n (xs ++ ys) ≡ take n xs
take-append_le zero xs ys h = refl
take-append_le (suc n) [] ys h = absurd (omega arith)
take-append_le (suc n) (x ∷ xs) ys h = ap (λ zs. x ∷ zs) (take-append_le n xs ys (omega arith))

drop-append_le : (n : ℕ) (xs ys : List ℕ) → n ≤ length xs → drop n (xs ++ ys) ≡ drop n xs ++ ys
drop-append_le zero xs ys h = refl
drop-append_le (suc n) [] ys h = absurd (omega arith)
drop-append_le (suc n) (x ∷ xs) ys h = drop-append_le n xs ys (omega arith)

read_field-append_le :
    (n : ℕ) (xs ys : List ℕ)
    → n ≤ length xs
    → read_field (n ∷ (xs ++ ys)) ≡ some (take n xs, drop n xs ++ ys)
unfolding read_field
read_field-append_le n xs ys h =
    ground (arith, length-append xs ys, take-append_le n xs ys h, drop-append_le n xs ys h)

pub read_credentials_too_long :
    (name password : List ℕ)
    → 255 < length name
    → read_credentials (credentials name password)
      ≡ read_password
          (take (length name % 256) name)
          (read_field (drop (length name % 256) name ++ ((length password % 256) ∷ password)))
unfolding read_credentials credentials read_name
read_credentials_too_long name password h = ground (
  arith,
  read_field-append_le (length name % 256) name ((length password % 256) ∷ password) (omega arith),
)
