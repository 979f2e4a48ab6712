-- ===== src/Codec/Base64/RoundTrip.antt =====
-- Decoding undoes encoding, in the strict and in the lenient mode.
use python_typescript_wiki_b.Base.{
  ℕ, ◌+◌, ◌*◌, ◌/◌, ◌%◌, ◌<◌, ◌≡◌, refl, ap, ◌∙◌, Bool, true, false, some, [], ◌∷◌, arith, ltb,
  ◌==◌, All, all,
}
use mathlib.Core.Path.{ap₂}
use python_typescript_wiki_b.Text.{Str, Bytes, is_space}
use python_typescript_wiki_b.Text.Laws.{strip_of_visible}
use python_typescript_wiki_b.Errors.{Result, ok}
use python_typescript_wiki_b.Codec.Base64.{
  char_of, value_of, pad_char, b64encode, Quad, start, pad_step, data_step, step, emit, scan,
  b64decode, decode_token,
}

abbrev pub IsBytes : Bytes → Type 0
IsBytes = All (λ b. b < 256)

value_of-char_of : (v : ℕ) → v < 64 → value_of (char_of v) ≡ some v
unfolding value_of char_of
value_of-char_of v h = ground arith

char_of-ne-pad : (v : ℕ) → v < 64 → (char_of v == pad_char) ≡ false
unfolding char_of
char_of-ne-pad v h = ground arith

char_of-ascii : (v : ℕ) → v < 64 → ltb (char_of v) 0x80 ≡ true
unfolding char_of
char_of-ascii v h = ground arith

-- A character of the alphabet, before any padding.
step-char_of :
    (strict is_last : Bool) (q : Quad) (v : ℕ)
    → v < 64
    → q.padded ≡ false
    → step strict is_last q (char_of v) ≡ data_step q v
unfolding step
step-char_of strict is_last q v h np = ground (arith, value_of-char_of v, char_of-ne-pad v)

-- The automaton inside a quad, with no padding before.
abbrev at : ℕ → ℕ → Quad
at p l = record { position = p; left = l; pads = 0; padded = false }

module _ (strict : Bool) (s : Str) (v : ℕ) (h : v < 64) where
  scan_first : scan strict (char_of v ∷ s) (at 0 0) ≡ scan strict s (at 1 v)
  unfolding scan data_step
  scan_first = rw (step-char_of strict _ (at 0 0) v h refl, scan) refl

  scan_second :
      (l : ℕ)
      → scan strict (char_of v ∷ s) (at 1 l)
        ≡ emit (some (l * 4 + v / 16)) (scan strict s (at 2 (v % 16)))
  unfolding scan data_step
  scan_second l = rw (step-char_of strict _ (at 1 l) v h refl, scan) refl

  scan_third :
      (l : ℕ)
      → scan strict (char_of v ∷ s) (at 2 l)
        ≡ emit (some (l * 16 + v / 4)) (scan strict s (at 3 (v % 4)))
  unfolding scan data_step
  scan_third l = rw (step-char_of strict _ (at 2 l) v h refl, scan) refl

  scan_fourth :
      (l : ℕ)
      → scan strict (char_of v ∷ s) (at 3 l) ≡ emit (some (l * 64 + v)) (scan strict s (at 0 0))
  unfolding scan data_step
  scan_fourth l = rw (step-char_of strict _ (at 3 l) v h refl, scan) refl

-- Padding that completes a quad ends the run.
scan_two_pads : (strict : Bool) (l : ℕ) → scan strict (pad_char ∷ pad_char ∷ []) (at 2 l) ≡ ok []
unfolding scan step pad_step
scan_two_pads true l = refl
scan_two_pads false l = refl

scan_one_pad : (strict : Bool) (l : ℕ) → scan strict (pad_char ∷ []) (at 3 l) ≡ ok []
unfolding scan step pad_step
scan_one_pad true l = refl
scan_one_pad false l = refl

-- A whole quad, and the two padded forms of the last one.
module _ (strict : Bool) {v w : ℕ} (hv : v < 64) (hw : w < 64) where
  scan_two :
      scan strict (char_of v ∷ char_of w ∷ pad_char ∷ pad_char ∷ []) start
      ≡ ok ((v * 4 + w / 16) ∷ [])
  scan_two =
      rw (scan_first strict _ v hv, scan_second strict _ w hw v, scan_two_pads strict (w % 16)) refl

  module _ {x : ℕ} (hx : x < 64) where
    scan_three :
        scan strict (char_of v ∷ char_of w ∷ char_of x ∷ pad_char ∷ []) start
        ≡ ok ((v * 4 + w / 16) ∷ (w % 16 * 16 + x / 4) ∷ [])
    scan_three =
        rw
          (
            scan_first strict _ v hv,
            scan_second strict _ w hw v,
            scan_third strict _ x hx (w % 16),
            scan_one_pad strict (x % 4),
          )
          refl

    scan_four :
        (y : ℕ) (s : Str) {bs : Bytes}
        → y < 64
        → scan strict s start ≡ ok bs
        → scan strict (char_of v ∷ char_of w ∷ char_of x ∷ char_of y ∷ s) start
          ≡ ok ((v * 4 + w / 16) ∷ (w % 16 * 16 + x / 4) ∷ (x % 4 * 64 + y) ∷ bs)
    scan_four y s hy e =
        rw
          (
            scan_first strict _ v hv,
            scan_second strict _ w hw v,
            scan_third strict _ x hx (w % 16),
            scan_fourth strict _ y hy (x % 4),
            e,
          )
          refl

abbrev three : ℕ → ℕ → ℕ → Bytes → Result Bytes
three a b c bs = ok (a ∷ b ∷ c ∷ bs)

-- The automaton reads an encoding back to its bytes, in either mode.
pub scan-b64encode :
    (strict : Bool) (bs : Bytes) → IsBytes bs → scan strict (b64encode bs) start ≡ ok bs
unfolding b64encode scan
scan-b64encode strict [] h = refl
scan-b64encode strict (a ∷ []) h =
    scan_two strict {v = a / 4} {w = a % 4 * 16} (omega arith) (omega arith)
    ∙ ap (λ x. ok (x ∷ [])) (omega arith)
scan-b64encode strict (a ∷ b ∷ []) h =
    scan_three strict {v = a / 4} {w = a % 4 * 16 + b / 16} (omega arith) (omega arith)
      {x = b % 16 * 4} (omega arith)
    ∙ ap₂ (λ x y. ok (x ∷ y ∷ [])) (omega arith) (omega arith)
scan-b64encode strict (a ∷ b ∷ c ∷ bs) (ha, (hb, (hc, h))) =
    scan_four strict {v = a / 4} {w = a % 4 * 16 + b / 16} (omega arith) (omega arith)
      {x = b % 16 * 4 + c / 64} (omega arith) (c % 64) (b64encode bs) (omega arith)
      (scan-b64encode strict bs h)
    ∙ ground arith

ascii-b64encode : (bs : Bytes) → IsBytes bs → all (λ c. ltb c 0x80) (b64encode bs) ≡ true
unfolding b64encode all
ascii-b64encode [] h = refl
ascii-b64encode (a ∷ []) h = ground (arith, char_of-ascii (a / 4), char_of-ascii (a % 4 * 16))
ascii-b64encode (a ∷ b ∷ []) h =
    ground (
      arith,
      char_of-ascii (a / 4),
      char_of-ascii (a % 4 * 16 + b / 16),
      char_of-ascii (b % 16 * 4),
    )
ascii-b64encode (a ∷ b ∷ c ∷ bs) (ha, (hb, (hc, h))) = ground (
  arith,
  char_of-ascii (a / 4),
  char_of-ascii (a % 4 * 16 + b / 16),
  char_of-ascii (b % 16 * 4 + c / 64),
  char_of-ascii (c % 64),
  ascii-b64encode bs h,
)

-- `b64decode(b64encode(bs))` is `bs` for bytes, with and without `validate`.
pub b64decode-b64encode :
    (validate : Bool) (bs : Bytes) → IsBytes bs → b64decode validate (b64encode bs) ≡ ok bs
unfolding b64decode
b64decode-b64encode validate bs h = rw (ascii-b64encode bs h) (scan-b64encode validate bs h)

char_of-visible : (v : ℕ) → v < 64 → is_space (char_of v) ≡ false
unfolding char_of is_space
char_of-visible v h = ground arith

pad_char-visible : is_space pad_char ≡ false
unfolding is_space
pad_char-visible = refl

b64encode-visible : (bs : Bytes) → IsBytes bs → All (λ c. is_space c ≡ false) (b64encode bs)
unfolding b64encode
b64encode-visible [] h = tt
b64encode-visible (a ∷ []) h = (
  char_of-visible (a / 4) (omega arith),
  (char_of-visible (a % 4 * 16) (omega arith), (pad_char-visible, (pad_char-visible, tt))),
)
b64encode-visible (a ∷ b ∷ []) h = (
  char_of-visible (a / 4) (omega arith),
  (
    char_of-visible (a % 4 * 16 + b / 16) (omega arith),
    (char_of-visible (b % 16 * 4) (omega arith), (pad_char-visible, tt)),
  ),
)
b64encode-visible (a ∷ b ∷ c ∷ bs) (ha, (hb, (hc, h))) = (
  char_of-visible (a / 4) (omega arith),
  (
    char_of-visible (a % 4 * 16 + b / 16) (omega arith),
    (
      char_of-visible (b % 16 * 4 + c / 64) (omega arith),
      (char_of-visible (c % 64) (omega arith), b64encode-visible bs h),
    ),
  ),
)

-- `_b64decode` reads a token that is the Base64 of bytes back to these bytes.
pub decode_token-b64encode : (bs : Bytes) → IsBytes bs → decode_token (b64encode bs) ≡ ok bs
unfolding decode_token
decode_token-b64encode bs h =
    rw (strip_of_visible (b64encode bs) (b64encode-visible bs h), b64decode-b64encode true bs h)
      refl
