-- ===== src/Bytes/Layout.antt =====
-- Accounts with a fixed layout: runs of `data[o..o + w].copy_from_slice(&v.to_le_bytes())`, and what
-- the fields read afterwards. A key counts as a word of 32 bytes, a float as the word of its bits.
use hopper_svm.Prelude.{
  ℕ, zero, suc, ◌+◌, ◌^◌, ◌≤◌, ◌<◌, ◌≡◌, ◌∙◌, refl, ap, Option, none, some, List, [], ◌∷◌, ◌++◌,
  arith, length, take,
}
use hopper_svm.Bytes.{
  le_decode, le_encode, slice, splice, le_decode-encode, length-le_encode, length-splice,
  slice-splice_self, slice-splice_before, slice-splice_after, AreBytes, slice_lt, drop-append_add,
}

-- The word of `w` bytes at `o`.
abbrev pub word : ℕ → ℕ → List ℕ → ℕ
word o w buf = le_decode (slice o w buf)

-- Offset, width and value of a write.
abbrev pub Field : Type 0
Field = ℕ × ℕ × ℕ

unfoldable pub writes : List Field → List ℕ → List ℕ
writes [] buf = buf
writes ((o, w, v) ∷ fs) buf = writes fs (splice o (le_encode w v) buf)

-- The writes go from left to right and end at `n` or before.
abbrev pub Ordered : ℕ → ℕ → List Field → Type 0
Ordered n from [] = from ≤ n
Ordered n from ((o, w, v) ∷ fs) = (from ≤ o) × Ordered n (o + w) fs

abbrev pub nth : ℕ → List Field → Option Field
nth k [] = none
nth zero (f ∷ fs) = some f
nth (suc k) (f ∷ fs) = nth k fs

Ordered-le : (n from : ℕ) (fs : List Field) → Ordered n from fs → from ≤ n
Ordered-le n from [] h = h
Ordered-le n from ((o, w, v) ∷ fs) h = omega (arith, h.0, Ordered-le n (o + w) fs h.1)

pub length-writes :
    (fs : List Field) (buf : List ℕ) (n from : ℕ)
    → Ordered n from fs
    → n ≤ length buf
    → length (writes fs buf) ≡ length buf
unfolding writes
length-writes [] buf n from h l = refl
length-writes ((o, w, v) ∷ fs) buf n from h l =
    let fit : o + length (le_encode w v) ≤ length buf =
      omega (arith, length-le_encode w v, Ordered-le n (o + w) fs h.1) in
    let same = length-splice o (le_encode w v) buf fit in
    length-writes fs (splice o (le_encode w v) buf) n (o + w) h.1 (omega (arith, same)) ∙ same

-- A word before the first write is kept.
pub slice-writes_before :
    (fs : List Field) (buf : List ℕ) (n from o w : ℕ)
    → Ordered n from fs
    → n ≤ length buf
    → o + w ≤ from
    → slice o w (writes fs buf) ≡ slice o w buf
unfolding writes
slice-writes_before [] buf n from o w h l b = refl
slice-writes_before ((p, u, v) ∷ fs) buf n from o w h l b =
    let fit : p + length (le_encode u v) ≤ length buf =
      omega (arith, length-le_encode u v, Ordered-le n (p + u) fs h.1) in
    let same = length-splice p (le_encode u v) buf fit in
    slice-writes_before fs (splice p (le_encode u v) buf) n (p + u) o w h.1 (omega (arith, same))
      (omega (arith, h.0))
    ∙ slice-splice_before o w p (le_encode u v) buf (omega (arith, h.0)) (omega (arith, fit))

word-writes_head :
    (fs : List Field) (buf : List ℕ) (n from p u x : ℕ)
    → Ordered n from ((p, u, x) ∷ fs)
    → n ≤ length buf
    → x < 256 ^ u
    → word p u (writes ((p, u, x) ∷ fs) buf) ≡ x
unfolding writes
word-writes_head fs buf n from p u x h l small =
    let fit : p + length (le_encode u x) ≤ length buf =
      omega (arith, length-le_encode u x, Ordered-le n (p + u) fs h.1) in
    let same = length-splice p (le_encode u x) buf fit in
    ap le_decode (
      slice-writes_before fs (splice p (le_encode u x) buf) n (p + u) p u h.1 (omega (arith, same))
        (omega arith)
      ∙ slice-splice_self p u (le_encode u x) buf (length-le_encode u x)
          (omega (arith, fit, length-le_encode u x)))
    ∙ le_decode-encode u x small

-- Every field that was written reads as its value.
pub word-writes :
    (k : ℕ) (fs : List Field) (buf : List ℕ) (n from o w v : ℕ)
    → nth k fs ≡ some (o, w, v)
    → Ordered n from fs
    → n ≤ length buf
    → v < 256 ^ w
    → word o w (writes fs buf) ≡ v
unfolding writes
word-writes k [] buf n from o w v e h l small = absurd (ground arith)
word-writes zero ((p, u, x) ∷ fs) buf n from o w v e h l small =
    let (ep, eu, ex) : (p ≡ o) × (u ≡ w) × (x ≡ v) = (ground arith, ground arith, ground arith) in
    rw (← ep, ← eu, ← ex) (word-writes_head fs buf n from p u x h l (rw (← eu, ← ex) at small))
word-writes (suc k) ((p, u, x) ∷ fs) buf n from o w v e h l small =
    let fit : p + length (le_encode u x) ≤ length buf =
      omega (arith, length-le_encode u x, Ordered-le n (p + u) fs h.1) in
    let same = length-splice p (le_encode u x) buf fit in
    word-writes k fs (splice p (le_encode u x) buf) n (p + u) o w v e h.1 (omega (arith, same))
      small

-- A word behind the last write is kept.
pub slice-writes_after :
    (fs : List Field) (buf : List ℕ) (n from o w : ℕ)
    → Ordered n from fs
    → n ≤ length buf
    → n ≤ o
    → slice o w (writes fs buf) ≡ slice o w buf
unfolding writes
slice-writes_after [] buf n from o w h l b = refl
slice-writes_after ((p, u, v) ∷ fs) buf n from o w h l b =
    let last = Ordered-le n (p + u) fs h.1 in
    let size = length-le_encode u v in
    let fit : p + length (le_encode u v) ≤ length buf = omega (arith, size, last) in
    let same = length-splice p (le_encode u v) buf fit in
    slice-writes_after fs (splice p (le_encode u v) buf) n (p + u) o w h.1 (omega (arith, same)) b
    ∙ slice-splice_after o w p (le_encode u v) buf (omega (arith, size, last)) (omega (arith, fit))

-- Words of the first and of the second part of a buffer.
pub slice-append_left :
    (o w : ℕ) (xs ys : List ℕ) → o + w ≤ length xs → slice o w (xs ++ ys) ≡ slice o w xs
slice-append_left zero zero xs ys h = refl
slice-append_left zero (suc w) [] ys h = absurd (omega arith)
slice-append_left zero (suc w) (x ∷ xs) ys h =
    ap (λ t. x ∷ t) (slice-append_left zero w xs ys (omega arith))
slice-append_left (suc o) zero xs ys h = refl
slice-append_left (suc o) (suc w) [] ys h = absurd (omega arith)
slice-append_left (suc o) (suc w) (x ∷ xs) ys h = slice-append_left o (suc w) xs ys (omega arith)

pub slice-append_right :
    (o w : ℕ) (xs ys : List ℕ) → slice (length xs + o) w (xs ++ ys) ≡ slice o w ys
slice-append_right o w xs ys = ap (take w) (drop-append_add xs ys o)

pub word-lt : (o w : ℕ) (buf : List ℕ) → AreBytes buf → o + w ≤ length buf → word o w buf < 256 ^ w
word-lt o w buf bytes h = (slice_lt o w buf bytes h).1
