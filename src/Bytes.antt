-- ===== src/Bytes.antt =====
-- Little-endian words in byte buffers, and writes into a buffer: `from_le_bytes`, `to_le_bytes` and
-- `copy_from_slice` as the programs of src/ use them. A byte is a number below 256.
pub mod Layout
use native.Mathlib.Nat.{zero-add, suc-add, mul_comm, pow-suc}
use hopper_svm.Prelude.{
  ℕ, zero, suc, ◌+◌, ◌-◌, ◌*◌, ◌/◌, ◌%◌, ◌^◌, ◌≤◌, ◌<◌, ◌≡◌, ◌∙◌, refl, sym, ap, List, [], ◌∷◌,
  ◌++◌, arith, length, take, drop, length-append, length-take, length-drop,
}

abbrev pub le_decode : List ℕ → ℕ
le_decode [] = 0
le_decode (b ∷ bs) = b + 256 * le_decode bs

abbrev pub le_encode : ℕ → ℕ → List ℕ
le_encode zero n = []
le_encode (suc w) n = n % 256 ∷ le_encode w (n / 256)

-- `buf[off..off + n]`
abbrev pub slice : ℕ → ℕ → List ℕ → List ℕ
slice off n buf = take n (drop off buf)

-- `buf[off..off + bytes.len()].copy_from_slice(bytes)`
abbrev pub splice : ℕ → List ℕ → List ℕ → List ℕ
splice off bytes buf = take off buf ++ (bytes ++ drop (off + length bytes) buf)

pub length-le_encode : (w n : ℕ) → length (le_encode w n) ≡ w
length-le_encode zero n = refl
length-le_encode (suc w) n = ap suc (length-le_encode w (n / 256))

pub le_decode-encode : (w n : ℕ) → n < 256 ^ w → le_decode (le_encode w n) ≡ n
le_decode-encode zero n h = omega arith
le_decode-encode (suc w) n h =
    let e : 256 ^ suc w ≡ 256 * 256 ^ w = pow-suc 256 w ∙ mul_comm (256 ^ w) 256 in
    omega (arith, e, le_decode-encode w (n / 256) (omega (arith, e)))

module _ {ℓ} {A : Type ℓ} where
  pub take-append_length : (xs ys : List A) → take (length xs) (xs ++ ys) ≡ xs
  take-append_length [] ys = refl
  take-append_length (x ∷ xs) ys = ap (λ t. x ∷ t) (take-append_length xs ys)

  pub drop-append_add : (xs ys : List A) (k : ℕ) → drop (length xs + k) (xs ++ ys) ≡ drop k ys
  drop-append_add [] ys k = rw zero-add
  drop-append_add (x ∷ xs) ys k =
      let e : suc (length xs) + k ≡ suc (length xs + k) = omega arith in
      rw e (drop-append_add xs ys k)

  drop-nil : (n : ℕ) → ◌≡◌ {A = List A} (drop n []) []
  drop-nil zero = refl
  drop-nil (suc n) = refl

  drop-drop : (a b : ℕ) (xs : List A) → drop a (drop b xs) ≡ drop (b + a) xs
  drop-drop a zero xs = rw zero-add
  drop-drop a (suc b) [] = rw (drop-nil a, drop-nil (suc b + a))
  drop-drop a (suc b) (x ∷ xs) = rw (suc-add b a) (drop-drop a b xs)

  -- What lies behind the first `n` of `take n xs ++ ys`.
  drop-take_append : (n : ℕ) (xs ys : List A) → n ≤ length xs → drop n (take n xs ++ ys) ≡ ys
  drop-take_append zero xs ys h = refl
  drop-take_append (suc n) [] ys h = absurd (omega arith)
  drop-take_append (suc n) (x ∷ xs) ys h = drop-take_append n xs ys (omega arith)

  -- A window that ends before `k` is not touched by what is put behind `k`.
  window-take_append :
      (o n k : ℕ) (xs ys : List A)
      → o + n ≤ k
      → k ≤ length xs
      → take n (drop o (take k xs ++ ys)) ≡ take n (drop o xs)
  window-take_append o zero k xs ys h l = refl
  window-take_append o (suc n) zero xs ys h l = absurd (omega arith)
  window-take_append o (suc n) (suc k) [] ys h l = absurd (omega arith)
  window-take_append zero (suc n) (suc k) (x ∷ xs) ys h l =
      ap (λ t. x ∷ t) (window-take_append 0 n k xs ys (omega arith) (omega arith))
  window-take_append (suc o) (suc n) (suc k) (x ∷ xs) ys h l =
      window-take_append o (suc n) k xs ys (omega arith) (omega arith)

-- A slice at the place of a write reads what was written.
pub slice-splice_self :
    (off n : ℕ) (bs buf : List ℕ)
    → length bs ≡ n
    → off + n ≤ length buf
    → slice off n (splice off bs buf) ≡ bs
slice-splice_self off n bs buf e h =
    rw (drop-take_append off buf (bs ++ drop (off + length bs) buf) (omega arith), ← e)
      (take-append_length bs (drop (off + length bs) buf))

-- A slice that ends before a write is not changed by it.
pub slice-splice_before :
    (o n off : ℕ) (bs buf : List ℕ)
    → o + n ≤ off
    → off ≤ length buf
    → slice o n (splice off bs buf) ≡ slice o n buf
slice-splice_before o n off bs buf h l =
    window-take_append o n off buf (bs ++ drop (off + length bs) buf) h l

-- A slice that starts behind a write is not changed by it.
pub slice-splice_after :
    (o n off : ℕ) (bs buf : List ℕ)
    → off + length bs ≤ o
    → off ≤ length buf
    → slice o n (splice off bs buf) ≡ slice o n buf
slice-splice_after o n off bs buf h l =
    let k = o - (off + length bs) in
    let eo : o ≡ off + (length bs + k) = omega arith in
    let inner : drop (length bs + k) (bs ++ drop (off + length bs) buf) ≡ drop o buf =
      drop-append_add bs (drop (off + length bs) buf) k
      ∙ drop-drop k (off + length bs) buf
      ∙ ap (λ t. drop t buf) (let e : off + length bs + k ≡ o = omega arith in e) in
    let outer : drop o (splice off bs buf) ≡ drop o buf =
      ap (λ t. drop t (splice off bs buf)) eo
      ∙ sym (drop-drop (length bs + k) off (splice off bs buf))
      ∙ ap (drop (length bs + k)) (drop-take_append off buf (bs ++ drop (off + length bs) buf) l)
      ∙ inner in
    ap (take n) outer

pub length-splice :
    (off : ℕ) (bs buf : List ℕ)
    → off + length bs ≤ length buf
    → length (splice off bs buf) ≡ length buf
length-splice off bs buf h = omega (
  arith,
  length-append (take off buf) (bs ++ drop (off + length bs) buf),
  length-append bs (drop (off + length bs) buf),
  length-take off buf,
  length-drop (off + length bs) buf,
)

-- Every entry is a byte.
abbrev pub AreBytes : List ℕ → Type 0
AreBytes [] = Unit
AreBytes (b ∷ bs) = (b < 256) × AreBytes bs

pub take-AreBytes : (n : ℕ) (bs : List ℕ) → AreBytes bs → AreBytes (take n bs)
take-AreBytes zero bs h = tt
take-AreBytes (suc n) [] h = tt
take-AreBytes (suc n) (b ∷ bs) h = (h.0, take-AreBytes n bs h.1)

pub drop-AreBytes : (n : ℕ) (bs : List ℕ) → AreBytes bs → AreBytes (drop n bs)
drop-AreBytes zero bs h = h
drop-AreBytes (suc n) [] h = tt
drop-AreBytes (suc n) (b ∷ bs) h = drop-AreBytes n bs h.1

pub le_decode-lt : (bs : List ℕ) → AreBytes bs → le_decode bs < 256 ^ length bs
le_decode-lt [] h = omega arith
le_decode-lt (b ∷ bs) h =
    let e : 256 ^ suc (length bs) ≡ 256 * 256 ^ length bs =
      pow-suc 256 (length bs) ∙ mul_comm (256 ^ length bs) 256 in
    omega (arith, e, le_decode-lt bs h.1)

-- A slice that lies in the buffer reads a word of its length.
pub slice_lt :
    (off n : ℕ) (bs : List ℕ)
    → AreBytes bs
    → off + n ≤ length bs
    → (length (slice off n bs) ≡ n) × (le_decode (slice off n bs) < 256 ^ n)
slice_lt off n bs h l =
    let size : length (slice off n bs) ≡ n =
      omega (arith, length-take n (drop off bs), length-drop off bs) in
    (
      size,
      rw size at
          (le_decode-lt (slice off n bs) (take-AreBytes n (drop off bs) (drop-AreBytes off bs h))),
    )
