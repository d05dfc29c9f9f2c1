-- ===== src/Utf8/Scan.antt =====
-- One round of decodeUTF8, on the sequences of one to three bytes, and its bounds.
use Prim.Native.Nat.{pred}
use qv_plugin_netfilter.Base.{
  ℕ, zero, suc, ◌+◌, ◌*◌, ◌%◌, ◌^◌, ◌≤◌, ◌<◌, ◌≡◌, refl, List, [], ◌∷◌, arith, length, get_or,
}
use qv_plugin_netfilter.Utf8.{
  lead_loop, tail_loop, check_width, decode_sequence, decode_utf8_char, decode_loop,
}

lead_one : (c : ℕ) → c < 128 → lead_loop 8 c 0x7F 0 ≡ (0x7F, 0)
unfolding lead_loop
lead_one c h = ground arith

lead_two : (a : ℕ) → a < 32 → lead_loop 8 (0xC0 + a) 0x7F 0 ≡ (0x1F, 2)
unfolding lead_loop
lead_two a h = ground arith

lead_three : (a : ℕ) → a < 16 → lead_loop 8 (0xE0 + a) 0x7F 0 ≡ (0xF, 3)
unfolding lead_loop
lead_three a h = ground arith

module _ (source : List ℕ) (i : ℕ) where
  pub decode_one :
      (c : ℕ)
      → get_or source i 0 ≡ c
      → c < 128
      → i < length source
      → decode_utf8_char 2 source i ≡ (c, i)
  unfolding decode_utf8_char decode_sequence check_width tail_loop
  decode_one c e h l = ground (arith, lead_one c)

  pub decode_two :
      (a b : ℕ)
      → get_or source i 0 ≡ 0xC0 + a
      → get_or source (i + 1) 0 ≡ 0x80 + b
      → a < 32
      → b < 64
      → i + 1 < length source
      → decode_utf8_char 2 source i ≡ (a * 64 + b, i + 1)
  unfolding decode_utf8_char decode_sequence check_width tail_loop
  decode_two a b e f ha hb l = ground (arith, lead_two a)

  pub decode_three :
      (a b c : ℕ)
      → get_or source i 0 ≡ 0xE0 + a
      → get_or source (i + 1) 0 ≡ 0x80 + b
      → get_or source (i + 1 + 1) 0 ≡ 0x80 + c
      → a < 16
      → b < 64
      → c < 64
      → i + 2 < length source
      → decode_utf8_char 2 source i ≡ ((a * 64 + b) * 64 + c, i + 1 + 1)
  unfolding decode_utf8_char decode_sequence check_width tail_loop
  decode_three a b c e f g ha hb hc l = ground (arith, lead_three a)

get_or_beyond : (xs : List ℕ) (i : ℕ) → length xs ≤ i → get_or xs i 0 ≡ 0
get_or_beyond [] i h = refl
get_or_beyond (x ∷ xs) zero h = absurd (omega arith)
get_or_beyond (x ∷ xs) (suc i) h = get_or_beyond xs i (omega arith)

module _ (sizeof_wchar : ℕ) (source : List ℕ) where
  tail_loop_bounds :
      (extra i n : ℕ)
      → i < length source
      → (i ≤ (tail_loop sizeof_wchar extra source i n).1)
        × ((tail_loop sizeof_wchar extra source i n).1 < length source)
  unfolding tail_loop
  tail_loop_bounds zero i n h = (omega arith, omega arith)
  tail_loop_bounds (suc extra) i n h = ground (
    arith,
    get_or_beyond source (i + 1),
    tail_loop_bounds extra (i + 1)
        ((n * 64 + get_or source (i + 1) 0 % 64) % 2 ^ (8 * sizeof_wchar)),
  )

  pub decode_utf8_char_bounds :
      (i : ℕ)
      → i < length source
      → (i ≤ (decode_utf8_char sizeof_wchar source i).1)
        × ((decode_utf8_char sizeof_wchar source i).1 < length source)
  unfolding decode_utf8_char decode_sequence check_width
  decode_utf8_char_bounds i h = ground (
    arith,
    tail_loop_bounds (pred (lead_loop 8 (get_or source i 0) 0x7F 0).1) i
        (get_or source i 0 % ((lead_loop 8 (get_or source i 0) 0x7F 0).0 + 1)) h,
  )

  pub decode_loop_fuel :
      (f g i : ℕ)
      → length source ≤ f + i
      → length source ≤ g + i
      → decode_loop sizeof_wchar f source i ≡ decode_loop sizeof_wchar g source i
  unfolding decode_loop
  decode_loop_fuel zero zero i hf hg = refl
  decode_loop_fuel zero (suc g) i hf hg = ground arith
  decode_loop_fuel (suc f) zero i hf hg = ground arith
  decode_loop_fuel (suc f) (suc g) i hf hg = ground (
    arith,
    decode_utf8_char_bounds i,
    decode_loop_fuel f g ((decode_utf8_char sizeof_wchar source i).1 + 1),
  )
