-- ===== src/Text/Laws.antt =====
-- Laws of the text methods.
use python_typescript_wiki_b.Base.{ℕ, ◌*◌, ◌≡◌, refl, ◌≢◌, false, [], ◌∷◌, ◌++◌, arith, length, All}
use python_typescript_wiki_b.Text.{Str, Bytes, is_space, lstrip, rstrip, strip, partition, hex}

-- No character of the text is the separator.
abbrev pub Without : ℕ → Str → Type 0
Without sep [] = Unit
Without sep (c ∷ s) = (c ≢ sep) × Without sep s

pub partition-Without : (sep : ℕ) (s : Str) → Without sep (partition sep s).0
unfolding partition
partition-Without sep [] = tt
partition-Without sep (c ∷ s) = ground (arith, partition-Without sep s)

-- A separator that occurs divides the text.
pub partition-join :
    (sep : ℕ) (s : Str)
    → (partition sep s).1 ≢ []
    → (partition sep s).0 ++ sep ∷ (partition sep s).1 ≡ s
unfolding partition
partition-join sep [] h = absurd (h refl)
partition-join sep (c ∷ s) h = ground (arith, partition-join sep s)

pub partition-append :
    (sep : ℕ) (before after : Str)
    → Without sep before
    → partition sep (before ++ sep ∷ after) ≡ (before, after)
unfolding partition
partition-append sep [] after h = ground arith
partition-append sep (c ∷ before) after h = ground (arith, partition-append sep before after h.1)

pub length-hex : (bs : Bytes) → length (hex bs) ≡ 2 * length bs
unfolding hex
length-hex [] = refl
length-hex (b ∷ bs) = omega (arith, length-hex bs)

-- A text with no space at either end.
abbrev pub HeadVisible : Str → Type 0
HeadVisible [] = Unit
HeadVisible (c ∷ s) = is_space c ≡ false

pub rstrip-append_of_visible :
    (s : Str) (c : ℕ) → is_space c ≡ false → rstrip (s ++ c ∷ []) ≡ s ++ c ∷ []
unfolding rstrip
rstrip-append_of_visible [] c h = rw h refl
rstrip-append_of_visible (d ∷ []) c h = ground (arith, rstrip-append_of_visible [] c h)
rstrip-append_of_visible (d ∷ e ∷ s) c h = ground (arith, rstrip-append_of_visible (e ∷ s) c h)

pub HeadVisible-lstrip : (s : Str) → HeadVisible (lstrip s)
unfolding lstrip
HeadVisible-lstrip [] = tt
HeadVisible-lstrip (c ∷ s) = ground (arith, HeadVisible-lstrip s)

HeadVisible-rstrip : (s : Str) → HeadVisible s → HeadVisible (rstrip s)
unfolding rstrip
HeadVisible-rstrip [] h = tt
HeadVisible-rstrip (c ∷ s) h = ground arith

rstrip-rstrip : (s : Str) → rstrip (rstrip s) ≡ rstrip s
unfolding rstrip
rstrip-rstrip [] = refl
rstrip-rstrip (c ∷ s) = ground (arith, rstrip-rstrip s)

pub lstrip_of_HeadVisible : (s : Str) → HeadVisible s → lstrip s ≡ s
unfolding lstrip
lstrip_of_HeadVisible [] h = refl
lstrip_of_HeadVisible (c ∷ s) h = ground arith

-- Stripping twice is stripping once.
pub strip-strip : (s : Str) → strip (strip s) ≡ strip s
unfolding strip
strip-strip s =
    let h = HeadVisible-rstrip (lstrip s) (HeadVisible-lstrip s) in
    rw (lstrip_of_HeadVisible (rstrip (lstrip s)) h) (rstrip-rstrip (lstrip s))

-- A text without spaces is left as it is.
pub rstrip_of_visible : (s : Str) → All (λ c. is_space c ≡ false) s → rstrip s ≡ s
unfolding rstrip
rstrip_of_visible [] h = refl
rstrip_of_visible (c ∷ s) h = ground (arith, rstrip_of_visible s h.1)

pub strip_of_visible : (s : Str) → All (λ c. is_space c ≡ false) s → strip s ≡ s
unfolding strip lstrip
strip_of_visible [] h = refl
strip_of_visible (c ∷ s) h = rw (h.0, lstrip) (rstrip_of_visible (c ∷ s) h)
