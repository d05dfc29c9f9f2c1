-- ===== src/Examples/Wide.antt =====
-- Strings that go through UTF-8.h: "é€" and a lone surrogate.
use qv_plugin_netfilter.Base.{ℕ, ◌≤◌, ◌<◌, ◌≡◌, List, [], ◌∷◌, arith}
use qv_plugin_netfilter.Utf8.{is_invalid, encode_utf8, decode_utf8, decode_utf8_char, decode_loop}
use qv_plugin_netfilter.Utf8.Scan.{decode_utf8_char_bounds, decode_loop_fuel}
use qv_plugin_netfilter.Utf8.RoundTrip.{sanitize, decode-encode_utf8}

abbrev units : List ℕ
units = 0xE9 ∷ 0x20AC ∷ 0xD83D ∷ []

decode-encode_utf8_example : decode_utf8 2 (encode_utf8 2 units) ≡ 0xE9 ∷ 0x20AC ∷ 0xFFFD ∷ []
unfolding sanitize is_invalid
decode-encode_utf8_example = decode-encode_utf8 units (ground arith)

-- A lead byte of three at the end of the string.
abbrev cut : List ℕ
cut = 0x41 ∷ 0xE2 ∷ 0x82 ∷ []

decode_utf8_char_bounds_example :
    (1 ≤ (decode_utf8_char 2 cut 1).1) × ((decode_utf8_char 2 cut 1).1 < 3)
decode_utf8_char_bounds_example = decode_utf8_char_bounds 2 cut 1 (omega arith)

decode_loop_fuel_example : decode_loop 2 3 cut 0 ≡ decode_loop 2 9 cut 0
decode_loop_fuel_example = decode_loop_fuel 2 cut 3 9 0 (omega arith) (omega arith)
