-- ===== src/Text.antt =====
-- Python's `str` as a list of code points, with the methods that the application calls:
-- strip, partition, lower, split, hexadecimal rendering.
pub mod Laws
use Prim.Native.Char.{code}
use Prim.Native.String.{String}
use python_typescript_wiki_b.Base.{
  ℕ, zero, suc, ◌+◌, ◌-◌, ◌/◌, ◌%◌, Bool, true, false, ◌&&◌, ◌||◌, not, List, [], ◌∷◌, ◌++◌, map,
  ltb, leb, ◌==◌, if◌then◌else◌,
}

abbrev pub Str : Type 0
Str = List ℕ

abbrev pub Bytes : Type 0
Bytes = List ℕ

-- The code points of a literal.
abbrev pub codes : String → Str
codes String.[] = []
codes (String.◌∷◌ c s) = code c ∷ codes s

-- str.isspace on one code point.
unfoldable pub is_space : ℕ → Bool
is_space c =
    (leb 9 c && leb c 13)
    || (leb 28 c && leb c 32)
    || c == 0x85
    || c == 0xa0
    || c == 0x1680
    || (leb 0x2000 c && leb c 0x200a)
    || c == 0x2028
    || c == 0x2029
    || c == 0x202f
    || c == 0x205f
    || c == 0x3000

abbrev pub is_empty : Str → Bool
is_empty [] = true
is_empty (c ∷ s) = false

unfoldable pub lstrip : Str → Str
lstrip [] = []
lstrip (c ∷ s) = elim (is_space c) [ true ↦ lstrip s | false ↦ c ∷ s ]

unfoldable pub rstrip : Str → Str
rstrip [] = []
rstrip (c ∷ s) = let rest = rstrip s in if is_space c && is_empty rest then [] else c ∷ rest

unfoldable pub strip : Str → Str
unfolding is_space lstrip rstrip
strip s = rstrip (lstrip s)

-- `s.partition(sep)` for a separator of one character, without the separator: the text before its
-- first occurrence and the text behind it, or the whole text and "".
unfoldable pub partition : ℕ → Str → Str × Str
partition sep [] = ([], [])
partition sep (c ∷ s) =
    let (before, after) = partition sep s in if c == sep then ([], s) else (c ∷ before, after)

-- `str.lower` on the code points of a header, which are those of Latin-1.
unfoldable pub lower_char : ℕ → ℕ
lower_char c =
    if (leb b'A' c && leb c b'Z') || (leb 0xc0 c && leb c 0xde && not (c == 0xd7))
    then c + 32
    else c

unfoldable pub lower : Str → Str
unfolding lower_char
lower s = map lower_char s

-- `s.count(sep)` for one character.
unfoldable pub count_char : ℕ → Str → ℕ
count_char sep [] = 0
count_char sep (c ∷ s) = (if c == sep then 1 else 0) + count_char sep s

abbrev pub grow : ℕ → List Str → List Str
grow c [] = (c ∷ []) ∷ []
grow c (part ∷ parts) = (c ∷ part) ∷ parts

-- `s.split(sep)` for one character.
unfoldable pub split : ℕ → Str → List Str
split sep [] = [] ∷ []
split sep (c ∷ s) = let parts = split sep s in if c == sep then [] ∷ parts else grow c parts

hex_digit : ℕ → ℕ
hex_digit d = if ltb d 10 then b'0' + d else b'a' + (d - 10)

-- `bytes.hex()`: two digits for each byte.
unfoldable pub hex : Bytes → Str
unfolding hex_digit
hex [] = []
hex (b ∷ bs) = hex_digit (b / 16) ∷ hex_digit (b % 16) ∷ hex bs

-- The last `n` hexadecimal digits of a number: `uuid4().hex` has 32.
unfoldable pub hex_number : ℕ → ℕ → Str
unfolding hex_digit
hex_number zero v = []
hex_number (suc n) v = hex_number n (v / 16) ++ hex_digit (v % 16) ∷ []
