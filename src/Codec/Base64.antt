-- ===== src/Codec/Base64.antt =====
-- Base64 as `base64.b64encode`, `base64.b64decode` and `base64.urlsafe_b64decode` run it, and
-- `_b64decode` and `_pad_b64` of app/services/token_service.py. The decoder is the automaton of
-- `binascii.a2b_base64`; bits are shifted and joined by arithmetic on numbers below 64.
pub mod RoundTrip
use python_typescript_wiki_b.Base.{
  ℕ, zero, suc, ◌+◌, ◌-◌, ◌*◌, ◌/◌, ◌%◌, Bool, true, false, ◌&&◌, ◌||◌, not, Option, none, some,
  List, [], ◌∷◌, ◌++◌, map, ltb, leb, ◌==◌, if◌then◌else◌, length, replicate, all,
}
use python_typescript_wiki_b.Text.{Str, Bytes, strip}
use python_typescript_wiki_b.Errors.{Exc, value_error, Result, ok, raised}
use python_typescript_wiki_b.Codec.Pkcs7.{oauth_invalid}

-- The character of a six-bit value, and back.
unfoldable pub char_of : ℕ → ℕ
char_of v =
    if ltb v 26
    then b'A' + v
    else if ltb v 52
    then b'a' + (v - 26)
    else if ltb v 62
    then b'0' + (v - 52)
    else if v == 62
    then b'+'
    else b'/'

unfoldable pub value_of : ℕ → Option ℕ
value_of c =
    if leb b'A' c && leb c b'Z'
    then some (c - b'A')
    else if leb b'a' c && leb c b'z'
    then some (c - b'a' + 26)
    else if leb b'0' c && leb c b'9'
    then some (c - b'0' + 52)
    else if c == b'+'
    then some 62
    else if c == b'/'
    then some 63
    else none

abbrev pub pad_char : ℕ
pad_char = b'='

-- base64.b64encode
unfoldable pub b64encode : Bytes → Str
unfolding char_of
b64encode [] = []
b64encode (a ∷ []) = char_of (a / 4) ∷ char_of (a % 4 * 16) ∷ pad_char ∷ pad_char ∷ []
b64encode (a ∷ b ∷ []) =
    char_of (a / 4) ∷ char_of (a % 4 * 16 + b / 16) ∷ char_of (b % 16 * 4) ∷ pad_char ∷ []
b64encode (a ∷ b ∷ c ∷ bs) =
    char_of (a / 4)
    ∷ char_of (a % 4 * 16 + b / 16)
    ∷ char_of (b % 16 * 4 + c / 64)
    ∷ char_of (c % 64)
    ∷ b64encode bs

-- Where the automaton stands: how many characters of the quad it has read, with the bits that are
-- left over from the last one, how many pads, and whether any pad came before.
pub record Quad : Type 0 where
  pub position : ℕ
  pub left : ℕ
  pub pads : ℕ
  pub padded : Bool

abbrev pub start : Quad
start = record { position = 0; left = 0; pads = 0; padded = false }

-- What one character does: it moves the automaton, with or without a byte of output, or it ends the
-- run.
pub data Move : Type 0 where
  go : Quad → Option ℕ → Move
  halt : Result Bytes → Move

pad_step : Bool → Bool → Quad → Move
pad_step strict is_last q =
    if strict && q.position == 0
    then halt (raised value_error)
    else if ltb q.position 2
    then go (record q { padded = true }) none
    else if ltb (q.position + (q.pads + 1)) 4
    then go (record q { pads = q.pads + 1; padded = true }) none
    else if strict && not is_last
    then halt (raised value_error)
    else halt (ok [])

-- The next position, the bits left over and the byte that is complete.
data_step : Quad → ℕ → Move
data_step q v =
    if q.position == 0
    then go (record q { position = 1; left = v; pads = 0 }) none
    else if q.position == 1
    then go (record q { position = 2; left = v % 16; pads = 0 }) (some (q.left * 4 + v / 16))
    else if q.position == 2
    then go (record q { position = 3; left = v % 4; pads = 0 }) (some (q.left * 16 + v / 4))
    else go (record q { position = 0; left = 0; pads = 0 }) (some (q.left * 64 + v))

step : Bool → Bool → Quad → ℕ → Move
unfolding pad_step data_step value_of
step strict is_last q c = if c == pad_char then pad_step strict is_last q else elim (value_of c) [
  | none ↦ if strict then halt (raised value_error) else go q none
  | some v ↦ if strict && q.padded then halt (raised value_error) else data_step q v
]

abbrev emit : Option ℕ → Result Bytes → Result Bytes
emit none r = r
emit (some b) (ok bs) = ok (b ∷ bs)
emit (some b) (raised e) = raised e

-- The end of the input: a quad that was begun lacks its padding.
abbrev finish : Quad → Result Bytes
finish q = if q.position == 0 then ok [] else raised value_error

abbrev is_end : Str → Bool
is_end [] = true
is_end (_ ∷ _) = false

-- binascii.a2b_base64
unfoldable pub scan : Bool → Str → Quad → Result Bytes
unfolding step
scan strict [] q = finish q
scan strict (c ∷ s) q = elim (step strict (is_end s) q c) [
  | halt r ↦ r
  | go q' out ↦ emit out (scan strict s q')
]

-- Text that is not ASCII is a ValueError.
unfoldable pub b64decode : Bool → Str → Result Bytes
unfolding scan
b64decode validate s = if all (λ c. ltb c 0x80) s then scan validate s start else raised value_error

abbrev to_standard : ℕ → ℕ
to_standard c = if c == b'-' then b'+' else if c == b'_' then b'/' else c

unfoldable pub urlsafe_b64decode : Str → Result Bytes
unfolding b64decode
urlsafe_b64decode s = b64decode false (map to_standard s)

-- `"=" * (-len(value) % 4)`
unfoldable pub pad_b64 : Str → Str
pad_b64 value = value ++ replicate ((4 - length value % 4) % 4) pad_char

abbrev or_invalid : Result Bytes → Result Bytes
or_invalid (ok raw) = ok raw
or_invalid (raised e) = raised oauth_invalid

or_urlsafe : Str → Result Bytes → Result Bytes
or_urlsafe cleaned (ok raw) = ok raw
or_urlsafe cleaned (raised e) = or_invalid (urlsafe_b64decode (pad_b64 cleaned))

-- `_b64decode`
unfoldable pub decode_token : Str → Result Bytes
unfolding b64decode urlsafe_b64decode pad_b64 strip or_urlsafe
decode_token token = let cleaned = strip token in or_urlsafe cleaned (b64decode true cleaned)
