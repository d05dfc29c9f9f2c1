-- ===== src/Utf8.antt =====
-- netfilter/UTF-8.h: the conversion of wide strings to UTF-8 and back. `sizeof_wchar` is
-- sizeof(wchar_t), 2 on Windows. Strings are lists of code units.
pub mod Scan
pub mod RoundTrip
use Prim.Native.Nat.{pred}
use qv_plugin_netfilter.Base.{
  ℕ, zero, suc, ◌+◌, ◌*◌, ◌/◌, ◌%◌, ◌^◌, Bool, ◌&&◌, ◌||◌, List, [], ◌∷◌, ◌++◌, ◌==◌, ltb, leb,
  if◌then◌else◌, length, get_or,
}

abbrev pub replacement_char : ℕ
replacement_char = 0xFFFD

-- The check at the start of encodeUTF8Char.
unfoldable pub is_invalid : ℕ → Bool
is_invalid c = leb 0xD800 c && leb c 0xDFFF || c == 0xFFFF || c == 0xFFFE || leb 0x80000000 c

-- 0x80 + ((c >> shift) & 0x3F), where the divisor is 1 << shift
abbrev pub continuation : ℕ → ℕ
continuation c = 0x80 + c % 64

-- The bytes of a character that is valid.
unfoldable pub encode_valid : ℕ → ℕ → List ℕ
encode_valid sizeof_wchar c =
    if ltb c 0x80
    then c ∷ []
    else if ltb c 0x800
    then (0xC0 + c / 64) ∷ continuation c ∷ []
    else if sizeof_wchar == 2 || ltb c 0x10000
    then (0xE0 + c / 4096) ∷ continuation (c / 64) ∷ continuation c ∷ []
    else if ltb c 0x200000
    then (0xF0 + c / 262144) ∷ continuation (c / 4096) ∷ continuation (c / 64) ∷ continuation c ∷ []
    else if ltb c 0x4000000
    then (0xF8 + c / 16777216)
      ∷ continuation (c / 262144)
      ∷ continuation (c / 4096)
      ∷ continuation (c / 64)
      ∷ continuation c
      ∷ []
    else (0xFC + c / 1073741824)
      ∷ continuation (c / 16777216)
      ∷ continuation (c / 262144)
      ∷ continuation (c / 4096)
      ∷ continuation (c / 64)
      ∷ continuation c
      ∷ []

-- encodeUTF8Char appends to `str`.
unfoldable pub encode_utf8_char : ℕ → List ℕ → ℕ → List ℕ
encode_utf8_char sizeof_wchar str character =
    str ++ encode_valid sizeof_wchar (if is_invalid character then 0xFFFD else character)

encode_loop : ℕ → List ℕ → List ℕ → List ℕ
encode_loop sizeof_wchar result [] = result
encode_loop sizeof_wchar result (c ∷ cs) =
    encode_loop sizeof_wchar (encode_utf8_char sizeof_wchar result c) cs

unfoldable pub encode_utf8 : ℕ → List ℕ → List ℕ
unfolding encode_loop
encode_utf8 sizeof_wchar source = encode_loop sizeof_wchar [] source

-- `while ((d & 0x80) != 0)`: the mask of the data bits, and the number of rounds, which is
-- extraBytesForChar + 1. A byte has no more than 8 rounds.
unfoldable pub lead_loop : ℕ → ℕ → ℕ → ℕ → ℕ × ℕ
lead_loop zero d mask rounds = (mask, rounds)
lead_loop (suc fuel) d mask rounds =
    let more = lead_loop fuel (d * 2 % 256) (mask / 2) (rounds + 1) in
    if leb 0x80 d then more else (mask, rounds)

-- The loop over the continuation bytes: the character, and the index of the last byte used. A
-- read at the length of the string gives its terminating zero.
unfoldable pub tail_loop : ℕ → ℕ → List ℕ → ℕ → ℕ → ℕ × ℕ
tail_loop sizeof_wchar zero source i n = (n, i)
tail_loop sizeof_wchar (suc extra) source i n =
    let c = get_or source (i + 1) 0 in
    let more =
      tail_loop sizeof_wchar extra source (i + 1) ((n * 64 + c % 64) % 2 ^ (8 * sizeof_wchar)) in
    if c == 0xFF || c == 0xFE
    then (replacement_char, i + 1)
    else if c / 64 == 2
    then more
    else (replacement_char, i)

-- A character that is too wide for wchar_t is replaced; `rounds` is extraBytesForChar + 1.
unfoldable pub check_width : ℕ → ℕ → ℕ × ℕ → ℕ × ℕ
check_width sizeof_wchar rounds (n, i) =
    if sizeof_wchar == 2 && ltb 3 rounds || sizeof_wchar == 4 && ltb 6 rounds
    then (replacement_char, i)
    else (n, i)

-- From a lead byte `c` at `i`, with its mask (a power of two less one) and its rounds.
unfoldable pub decode_sequence : ℕ → List ℕ → ℕ → ℕ → ℕ × ℕ → ℕ × ℕ
decode_sequence sizeof_wchar source i c (mask, rounds) = check_width sizeof_wchar rounds (
    if ltb (length source + 1) (rounds + i)
    then (replacement_char, i)
    else tail_loop sizeof_wchar (pred rounds) source i (c % (mask + 1)))

-- One round of decodeUTF8: the character, and the index at its end.
unfoldable pub decode_utf8_char : ℕ → List ℕ → ℕ → ℕ × ℕ
decode_utf8_char sizeof_wchar source i =
    let c = get_or source i 0 in
    if c == 0xFF || c == 0xFE || c / 64 == 2
    then (replacement_char, i)
    else decode_sequence sizeof_wchar source i c (lead_loop 8 c 0x7F 0)

-- for (i = start; i < source.length(); i++), on fuel
unfoldable pub decode_loop : ℕ → ℕ → List ℕ → ℕ → List ℕ
decode_loop sizeof_wchar zero source i = []
decode_loop sizeof_wchar (suc fuel) source i =
    let (n, last) = decode_utf8_char sizeof_wchar source i in
    let rest = decode_loop sizeof_wchar fuel source (last + 1) in
    if ltb i (length source) then n ∷ rest else []

unfoldable pub decode_utf8 : ℕ → List ℕ → List ℕ
decode_utf8 sizeof_wchar source = decode_loop sizeof_wchar (length source) source 0
