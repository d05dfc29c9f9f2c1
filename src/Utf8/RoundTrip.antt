-- ===== src/Utf8/RoundTrip.antt =====
-- What encodeUTF8 writes, decodeUTF8 reads back, with a wchar_t of 16 bits.
use mathlib.Core.List.{append_assoc, append-nil}
use qv_plugin_netfilter.Base.{
  ℕ, zero, suc, ◌+◌, ◌/◌, ◌%◌, ◌-◌, ◌≤◌, ◌<◌, ◌≡◌, refl, sym, ap, ◌∙◌, List, [], ◌∷◌, ◌++◌, map,
  arith, if◌then◌else◌, length, length-append, get_or, get_or-append,
}
use qv_plugin_netfilter.Utf8.{
  is_invalid, encode_valid, encode_utf8_char, encode_loop, encode_utf8, decode_utf8_char,
  decode_loop, decode_utf8,
}
use qv_plugin_netfilter.Utf8.Scan.{decode_one, decode_two, decode_three}

-- What is left of a code unit: surrogates, FFFE and FFFF are replaced.
unfoldable pub sanitize : ℕ → ℕ
sanitize c = if is_invalid c then 0xFFFD else c

bytes_of : List ℕ → List ℕ
bytes_of [] = []
bytes_of (c ∷ cs) = encode_valid 2 (sanitize c) ++ bytes_of cs

encode_loop-bytes_of : (out cs : List ℕ) → encode_loop 2 out cs ≡ out ++ bytes_of cs
unfolding encode_loop encode_utf8_char bytes_of sanitize
encode_loop-bytes_of out [] = sym (append-nil out)
encode_loop-bytes_of out (c ∷ cs) =
    encode_loop-bytes_of (encode_utf8_char 2 out c) cs ∙ append_assoc out _ (bytes_of cs)

module _ (pre : List ℕ) where
  at_offset : (i : ℕ) (ys : List ℕ) → get_or (pre ++ ys) (length pre + i) 0 ≡ get_or ys i 0
  at_offset i ys = get_or-append (length pre) i pre ys 0 refl

  byte_0 : (ys : List ℕ) → get_or (pre ++ ys) (length pre) 0 ≡ get_or ys 0 0
  byte_0 ys = ground (arith, at_offset 0 ys)

  byte_1 : (ys : List ℕ) → get_or (pre ++ ys) (length pre + 1) 0 ≡ get_or ys 1 0
  byte_1 ys = at_offset 1 ys

  byte_2 : (ys : List ℕ) → get_or (pre ++ ys) (length pre + 1 + 1) 0 ≡ get_or ys 2 0
  byte_2 ys = ground (arith, at_offset 2 ys)

  valid_one :
      (c : ℕ) (rest : List ℕ)
      → c < 128
      → decode_utf8_char 2 (pre ++ (c ∷ rest)) (length pre) ≡ (c, length pre)
  valid_one c rest h =
      decode_one (pre ++ (c ∷ rest)) (length pre) c (byte_0 _) h
        (omega (arith, length-append pre (c ∷ rest)))

  valid_two :
      (c : ℕ) (rest : List ℕ)
      → c < 2048
      → decode_utf8_char 2 (pre ++ ((0xC0 + c / 64) ∷ (0x80 + c % 64) ∷ rest)) (length pre)
        ≡ (c, length pre + 1)
  valid_two c rest h =
      let ys : List ℕ = (0xC0 + c / 64) ∷ (0x80 + c % 64) ∷ rest in
      decode_two (pre ++ ys) (length pre) (c / 64) (c % 64) (byte_0 ys) (byte_1 ys) (omega arith)
        (omega arith) (omega (arith, length-append pre ys))
      ∙ ap (λ x. (x, length pre + 1)) (omega arith)

  valid_three :
      (c : ℕ) (rest : List ℕ)
      → c < 65536
      → decode_utf8_char 2
          (pre ++ ((0xE0 + c / 4096) ∷ (0x80 + c / 64 % 64) ∷ (0x80 + c % 64) ∷ rest))
          (length pre)
        ≡ (c, length pre + 1 + 1)
  valid_three c rest h =
      let ys : List ℕ = (0xE0 + c / 4096) ∷ (0x80 + c / 64 % 64) ∷ (0x80 + c % 64) ∷ rest in
      decode_three (pre ++ ys) (length pre) (c / 4096) (c / 64 % 64) (c % 64) (byte_0 ys)
        (byte_1 ys) (byte_2 ys) (omega arith) (omega arith) (omega arith)
        (omega (arith, length-append pre ys))
      ∙ ap (λ x. (x, length pre + 1 + 1)) (omega arith)

  -- A character is read back where it was written.
  decode_valid :
      (c : ℕ) (rest : List ℕ)
      → c < 65536
      → decode_utf8_char 2 (pre ++ (encode_valid 2 c ++ rest)) (length pre)
        ≡ (c, length pre + (length (encode_valid 2 c) - 1))
  unfolding encode_valid
  decode_valid c rest h = ground (arith, valid_one c rest, valid_two c rest, valid_three c rest)

length-encode_valid : (c : ℕ) → 0 < length (encode_valid 2 c)
unfolding encode_valid
length-encode_valid c = ground arith

-- Every element is a UTF-16 code unit.
abbrev pub AreUnits : List ℕ → Type 0
AreUnits [] = Unit
AreUnits (c ∷ cs) = (c < 65536) × AreUnits cs

sanitize-lt : (c : ℕ) → c < 65536 → sanitize c < 65536
unfolding sanitize is_invalid
sanitize-lt c h = ground arith

length-bytes_of : (cs : List ℕ) → length cs ≤ length (bytes_of cs)
unfolding bytes_of
length-bytes_of [] = omega arith
length-bytes_of (c ∷ cs) = omega (
  arith,
  length-bytes_of cs,
  length-encode_valid (sanitize c),
  length-append (encode_valid 2 (sanitize c)) (bytes_of cs),
)

decode_loop-bytes_of :
    (fuel : ℕ) (pre cs : List ℕ)
    → AreUnits cs
    → length cs ≤ fuel
    → decode_loop 2 fuel (pre ++ bytes_of cs) (length pre) ≡ map sanitize cs
unfolding decode_loop bytes_of
decode_loop-bytes_of zero pre [] u h = refl
decode_loop-bytes_of zero pre (c ∷ cs) u h = absurd (omega arith)
decode_loop-bytes_of (suc fuel) pre [] u h = ground (arith, length-append pre [])
decode_loop-bytes_of (suc fuel) pre (c ∷ cs) u h =
    let enc : List ℕ = encode_valid 2 (sanitize c) in
    ground (
      arith,
      decode_valid pre (sanitize c) (bytes_of cs) (sanitize-lt c u.0),
      length-encode_valid (sanitize c),
      length-append pre enc,
      length-append pre (enc ++ bytes_of cs),
      length-append enc (bytes_of cs),
      append_assoc pre enc (bytes_of cs),
      decode_loop-bytes_of fuel (pre ++ enc) cs u.1,
    )

pub decode-encode_utf8 :
    (cs : List ℕ) → AreUnits cs → decode_utf8 2 (encode_utf8 2 cs) ≡ map sanitize cs
unfolding decode_utf8 encode_utf8
decode-encode_utf8 cs u =
    rw (encode_loop-bytes_of [] cs)
      (decode_loop-bytes_of (length (bytes_of cs)) [] cs u (length-bytes_of cs))
