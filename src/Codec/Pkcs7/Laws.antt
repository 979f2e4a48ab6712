-- ===== src/Codec/Pkcs7/Laws.antt =====
-- Padding is undone by unpadding, and unpadding accepts nothing else.
use python_typescript_wiki_b.Base.{
  ℕ, zero, suc, ◌-◌, ◌%◌, ◌≤◌, ◌≡◌, refl, sym, ap, ◌∙◌, inl, inr, true, some, ◌++◌, arith,
  Option-cases, same, same_refl, eq_of_same, length, take, drop, replicate, get_last?,
  length-append, length-replicate, take-append, drop-append, take-append-drop, get_last?-append,
  replicate-append, append_assoc,
}
use python_typescript_wiki_b.Text.{Bytes}
use python_typescript_wiki_b.Errors.{ok}
use python_typescript_wiki_b.Codec.Pkcs7.{strip_padding, pkcs7_unpad, pkcs7_pad}

get_last?-append_replicate :
    (data' : Bytes) (n a : ℕ) → get_last? (data' ++ replicate (suc n) a) ≡ some a
get_last?-append_replicate data' n a =
    rw replicate-append (rw (← append_assoc) (get_last?-append (data' ++ replicate n a) a))

length-cut : (data' : Bytes) (n a : ℕ) → length (data' ++ replicate n a) - n ≡ length data'
length-cut data' n a = omega (arith, length-append data' (replicate n a), length-replicate n a)

pkcs7_unpad_of_last :
    (data' : Bytes) (p : ℕ) → get_last? data' ≡ some p → pkcs7_unpad data' ≡ strip_padding p data'
unfolding pkcs7_unpad
pkcs7_unpad_of_last data' p h = rw (h, pkcs7_unpad) refl

strip_padding-append :
    (data' : Bytes) (n : ℕ) → 1 ≤ n → n ≤ 16 → strip_padding n (data' ++ replicate n n) ≡ ok data'
unfolding strip_padding
strip_padding-append data' n lo hi =
    rw (length-cut data' n n, drop-append, take-append, same_refl) (ground arith)

-- A padding of 1 to 16 bytes, each the padding's length, is taken off.
pub pkcs7_unpad-append :
    (data' : Bytes) (n : ℕ) → 1 ≤ n → n ≤ 16 → pkcs7_unpad (data' ++ replicate n n) ≡ ok data'
pkcs7_unpad-append data' zero lo hi = absurd (omega arith)
pkcs7_unpad-append data' (suc k) lo hi =
    pkcs7_unpad_of_last _ (suc k) (get_last?-append_replicate data' k (suc k))
    ∙ strip_padding-append data' (suc k) lo hi

-- Whatever the data, unpadding undoes padding.
pub pkcs7_unpad-pad : (data' : Bytes) → pkcs7_unpad (pkcs7_pad data' 16) ≡ ok data'
unfolding pkcs7_pad
pkcs7_unpad-pad data' =
    pkcs7_unpad-append data' (16 - length data' % 16) (omega arith) (omega arith)

-- A padded text is whole blocks.
pub length-pkcs7_pad : (data' : Bytes) → length (pkcs7_pad data' 16) % 16 ≡ 0
unfolding pkcs7_pad
length-pkcs7_pad data' =
    let n = 16 - length data' % 16 in
    omega (arith, length-append data' (replicate n n), length-replicate n n)

last_is_padding :
    (data' : Bytes) (n : ℕ)
    → same (drop (length data' - n) data') (replicate n n) ≡ true
    → data' ≡ take (length data' - n) data' ++ replicate n n
last_is_padding data' n h =
    sym (take-append-drop (length data' - n) data')
    ∙ ap (λ l. take (length data' - n) data' ++ l) (eq_of_same _ _ h)

strip_padding_sound :
    (data' plain : Bytes) (n : ℕ)
    → strip_padding n data' ≡ ok plain
    → (1 ≤ n) × (n ≤ 16) × (data' ≡ plain ++ replicate n n)
unfolding strip_padding
strip_padding_sound data' plain n h =
    (ground arith, ground arith, ground (arith, last_is_padding data' n))

-- The data that unpadding accepts is its result with 1 to 16 bytes, each the padding's length.
pub pkcs7_unpad_sound :
    (data' plain : Bytes)
    → pkcs7_unpad data' ≡ ok plain
    → (n : ℕ) × (1 ≤ n) × (n ≤ 16) × (data' ≡ plain ++ replicate n n)
unfolding pkcs7_unpad
pkcs7_unpad_sound data' plain h = elim (Option-cases (get_last? data')) [
  | inl e ↦ absurd (ground arith)
  | inr (n, e) ↦
      let (lo, hi, same') =
        strip_padding_sound data' plain n (sym (pkcs7_unpad_of_last data' n e) ∙ h) in
      (n, lo, hi, same')
]
