-- ===== src/Codec/Utf8.antt =====
-- `str.encode()` and `bytes.decode("utf-8")`, both strict.
use python_typescript_wiki_b.Base.{
  ℕ, ◌+◌, ◌*◌, ◌/◌, ◌%◌, ◌<◌, ◌≡◌, refl, Bool, true, ◌&&◌, Option, none, some, List, [], ◌∷◌, ◌++◌,
  arith, ltb, leb, ◌==◌, if◌then◌else◌, All,
}
use mathlib.Core.Option
use python_typescript_wiki_b.Text.{Str, Bytes}

-- The bytes of one code point; `none` is the UnicodeEncodeError for a surrogate.
encode_char : ℕ → Option Bytes
encode_char c =
    if ltb c 0x80
    then some (c ∷ [])
    else if ltb c 0x800
    then some ((0xc0 + c / 64) ∷ (0x80 + c % 64) ∷ [])
    else if leb 0xd800 c && leb c 0xdfff
    then none
    else if ltb c 0x10000
    then some ((0xe0 + c / 4096) ∷ (0x80 + c / 64 % 64) ∷ (0x80 + c % 64) ∷ [])
    else some
        ((0xf0 + c / 262144) ∷ (0x80 + c / 4096 % 64) ∷ (0x80 + c / 64 % 64) ∷ (0x80 + c % 64) ∷ [])

unfoldable pub utf8_encode : Str → Option Bytes
unfolding encode_char
utf8_encode [] = some []
utf8_encode (c ∷ s) =
    let rest = utf8_encode s in
    elim (encode_char c) [ none ↦ none | some bs ↦ Option.map (λ more. bs ++ more) rest ]

is_continuation : ℕ → Bool
is_continuation b = leb 0x80 b && leb b 0xbf

-- A sequence of two, three or four bytes is decoded if it is the shortest for its code point, which
-- is no surrogate and not above U+10FFFF.
pair_ok : ℕ → ℕ → Bool
pair_ok a b = leb 0xc2 a && leb a 0xdf && is_continuation b

triple_ok : ℕ → ℕ → ℕ → Bool
triple_ok a b c =
    leb 0xe0 a
    && leb a 0xef
    && is_continuation b
    && is_continuation c
    && (if a == 0xe0 then leb 0xa0 b else if a == 0xed then leb b 0x9f else true)

quad_ok : ℕ → ℕ → ℕ → ℕ → Bool
quad_ok a b c d =
    leb 0xf0 a
    && leb a 0xf4
    && is_continuation b
    && is_continuation c
    && is_continuation d
    && (if a == 0xf0 then leb 0x90 b else if a == 0xf4 then leb b 0x8f else true)

abbrev push : ℕ → Option Str → Option Str
push c rest = Option.map (λ s. c ∷ s) rest

-- `none` is the UnicodeDecodeError.
unfoldable pub utf8_decode : Bytes → Option Str
unfolding pair_ok triple_ok quad_ok is_continuation
utf8_decode [] = some []
utf8_decode (a ∷ []) = if ltb a 0x80 then some (a ∷ []) else none
utf8_decode (a ∷ b ∷ []) =
    let one = push a (utf8_decode (b ∷ [])) in
    if ltb a 0x80 then one else if pair_ok a b then some ((a % 32 * 64 + b % 64) ∷ []) else none
utf8_decode (a ∷ b ∷ c ∷ []) =
    let one = push a (utf8_decode (b ∷ c ∷ [])) in
    let two = push (a % 32 * 64 + b % 64) (utf8_decode (c ∷ [])) in
    if ltb a 0x80
    then one
    else if pair_ok a b
    then two
    else if triple_ok a b c
    then some ((a % 16 * 4096 + b % 64 * 64 + c % 64) ∷ [])
    else none
utf8_decode (a ∷ b ∷ c ∷ d ∷ bs) =
    let one = push a (utf8_decode (b ∷ c ∷ d ∷ bs)) in
    let two = push (a % 32 * 64 + b % 64) (utf8_decode (c ∷ d ∷ bs)) in
    let three = push (a % 16 * 4096 + b % 64 * 64 + c % 64) (utf8_decode (d ∷ bs)) in
    let four = push (a % 8 * 262144 + b % 64 * 4096 + c % 64 * 64 + d % 64) (utf8_decode bs) in
    if ltb a 0x80
    then one
    else if pair_ok a b
    then two
    else if triple_ok a b c
    then three
    else if quad_ok a b c d
    then four
    else none

-- ASCII text is its own encoding.
abbrev pub IsAscii : List ℕ → Type 0
IsAscii = All (λ c. c < 0x80)

pub utf8_encode_ascii : (s : Str) → IsAscii s → utf8_encode s ≡ some s
unfolding utf8_encode
utf8_encode_ascii [] h = refl
utf8_encode_ascii (c ∷ s) h = ground (arith, utf8_encode_ascii s h.1)

pub utf8_decode_ascii : (s : Str) → IsAscii s → utf8_decode s ≡ some s
unfolding utf8_decode
utf8_decode_ascii [] h = refl
utf8_decode_ascii (a ∷ []) h = ground arith
utf8_decode_ascii (a ∷ b ∷ []) h = ground (arith, utf8_decode_ascii (b ∷ []) h.1)
utf8_decode_ascii (a ∷ b ∷ c ∷ []) h = ground (arith, utf8_decode_ascii (b ∷ c ∷ []) h.1)
utf8_decode_ascii (a ∷ b ∷ c ∷ d ∷ bs) h = ground (arith, utf8_decode_ascii (b ∷ c ∷ d ∷ bs) h.1)
