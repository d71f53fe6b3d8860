-- ===== src/Ringbuf/Stream.antt =====
-- What the consumer gets out of the window, whatever the two sides have done to it in turn.
use videoalarmclock.Platform.{ok}
use mathlib.Core.Path.{subst₂}
use native.Mathlib.Decide.{dec_le}
use videoalarmclock.Ringbuf.Wrap.{mod-add_of_fit, mod-add_of_pass}
use videoalarmclock.Prelude.{
  ℕ, zero, suc, ◌+◌, ◌-◌, ◌%◌, ◌^◌, ◌≤◌, ◌<◌, ◌≡◌, refl, ap, ap₂, ◌∙◌, ◌&&◌, ◌||◌, none, some, List,
  [], ◌∷◌, ◌++◌, arith, leb, ◌==◌, if◌then◌else◌, length, get_or, le→leb, subst, nle→leb,
}
use native.Mathlib.Nat.{mod-lt}
use videoalarmclock.Ringbuf.{
  Ringbuf, slice, read, writable, consume_to, index_of, copy_out, sub32, init,
}
use videoalarmclock.Ringbuf.Window.{
  stretch, fill, Holds, index_of_lem, fill-Holds, consume_to-Holds, init-Holds,
}

-- A slice of the buffer that agrees with the file byte for byte is a stretch of it.
slice-stretch :
    (file : ℕ → ℕ) (buf : List ℕ) (i o n : ℕ)
    → i + n ≤ length buf
    → ((j : ℕ) → j < n → get_or buf (i + j) 0 ≡ file (o + j))
    → slice buf i n ≡ stretch file o n
unfolding stretch
slice-stretch file buf zero o zero fit h = refl
slice-stretch file [] zero o (suc n) fit h = absurd (omega arith)
slice-stretch file (b ∷ buf) zero o (suc n) fit h = ap₂ ◌∷◌ (h 0 (omega arith) ∙ at 0) (
    slice-stretch file buf zero (o + 1) n (omega arith) (λ j lt.
      let e : 0 + suc j ≡ suc (0 + j) = omega arith in
      subst (λ k. get_or (b ∷ buf) k 0 ≡ file (o + suc j)) e (h (suc j) (omega arith)) ∙ later j))
  where
    at : (z : ℕ) → file (o + 0) ≡ file o
    at z = let e : o + 0 ≡ o = omega arith in ap file e

    later : (j : ℕ) → file (o + suc j) ≡ file (o + 1 + j)
    later j = let e : o + suc j ≡ o + 1 + j = omega arith in ap file e
slice-stretch file [] (suc i) o (suc n) fit h = absurd (omega arith)
slice-stretch file (b ∷ buf) (suc i) o (suc n) fit h =
    slice-stretch file buf i o (suc n) (omega arith) (λ j lt.
      let e : suc i + j ≡ suc (i + j) = omega arith in
      subst (λ k. get_or (b ∷ buf) k 0 ≡ file (o + j)) e (h j lt))
slice-stretch file [] (suc i) o zero fit h = refl
slice-stretch file (b ∷ buf) (suc i) o zero fit h = refl

stretch-append :
    (file : ℕ → ℕ) (o m n : ℕ) → stretch file o m ++ stretch file (o + m) n ≡ stretch file o (m + n)
unfolding stretch
stretch-append file o zero n =
    let e : o + 0 ≡ o = omega arith in let e' : n ≡ 0 + n = omega arith in ap₂ (stretch file) e e'
stretch-append file o (suc m) n =
    let e : o + suc m ≡ o + 1 + m = omega arith in
    let e' : suc (m + n) ≡ suc m + n = omega arith in
    ap (λ k. file o ∷ (stretch file (o + 1) m ++ stretch file k n)) e
    ∙ (ap (λ l. file o ∷ l) (stretch-append file (o + 1) m n) ∙ ap (stretch file o) e')

module _ (file : ℕ → ℕ) {r : Ringbuf} (offset size : ℕ) (h : Holds file r) where
  index : ℕ
  index = (offset - r.base) % r.capacity

  -- the byte `j` places behind the index of `offset`, before and past the end of the buffer
  byte_ahead :
      (j : ℕ)
      → r.consumed ≤ offset
      → offset + j < r.produced
      → index + j < r.capacity
      → get_or r.buf (index + j) 0 ≡ file (offset + j)
  unfolding index
  byte_ahead j lo hi fit =
      let e : offset + j - r.base ≡ offset - r.base + j = omega arith in
      subst (λ k. get_or r.buf k 0 ≡ file (offset + j))
        (ap (λ (d : ℕ). d % r.capacity) e ∙ mod-add_of_fit r.capacity (offset - r.base) j fit)
        (h.bytes (offset + j) (omega arith) hi)

  byte_past :
      (j : ℕ)
      → r.consumed ≤ offset
      → offset + (r.capacity - index + j) < r.produced
      → get_or r.buf (0 + j) 0 ≡ file (offset + (r.capacity - index) + j)
  unfolding index
  byte_past j lo hi =
      let far : ℕ = r.capacity - index + j in
      let low : index < r.capacity = mod-lt (offset - r.base) {m = r.capacity} h.room in
      let e : offset + far - r.base ≡ offset - r.base + far = omega arith in
      let landing : index + far - r.capacity ≡ 0 + j = omega arith in
      let e' : offset + far ≡ offset + (r.capacity - index) + j = omega arith in
      subst₂ (λ k o. get_or r.buf k 0 ≡ file o)
        (ap (λ (d : ℕ). d % r.capacity) e
          ∙ (mod-add_of_pass r.capacity (offset - r.base) far h.room (omega arith) (omega arith)
              ∙ landing))
        e' (h.bytes (offset + far) (omega arith) hi)

  copy_out-stretch :
      r.consumed ≤ offset
      → offset + size ≤ r.produced
      → copy_out r.buf index (sub32 r.capacity index) size ≡ stretch file offset size
  unfolding copy_out index
  copy_out-stretch lo hi =
      let low : index < r.capacity = mod-lt (offset - r.base) {m = r.capacity} h.room in
      let end : sub32 r.capacity index ≡ r.capacity - index = omega arith in
      rw end elim (dec_le size (r.capacity - index)) [
        | yes whole ↦ rw (le→leb _ _ whole) (
            slice-stretch file r.buf index offset size (omega (arith, h.sized))
              (λ j lt. byte_ahead j lo (omega arith) (omega arith)))
        | no split ↦
            let rest : sub32 size (r.capacity - index) ≡ size - (r.capacity - index) =
              omega arith in
            let total : r.capacity - index + (size - (r.capacity - index)) ≡ size = omega arith in
            rw (nle→leb _ _ split, rest)
              (ap₂ ◌++◌
                  (slice-stretch file r.buf index offset (r.capacity - index)
                    (omega (arith, h.sized)) (λ j lt. byte_ahead j lo (omega arith) (omega arith)))
                  (slice-stretch file r.buf 0 (offset + (r.capacity - index))
                    (size - (r.capacity - index)) (omega (arith, h.sized))
                    (λ j lt. byte_past j lo (omega arith)))
                ∙ (stretch-append file offset (r.capacity - index) (size - (r.capacity - index))
                    ∙ ap (stretch file offset) total))
      ]

  copied :
      r.consumed ≤ offset
      → offset + size ≤ r.produced
      → offset < 2 ^ 32
      → copy_out r.buf (index_of r offset) (sub32 r.capacity (index_of r offset)) size
        ≡ stretch file offset size
  unfolding index
  copied lo hi ho = rw (index_of_lem r offset (omega arith) ho) (copy_out-stretch lo hi)

-- A read of a nonempty range gives the bytes of the file in that range if the window holds it
-- whole, also where it straddles the end of the buffer, and fails otherwise; an empty read succeeds.
pub read_lem :
    (file : ℕ → ℕ) {r : Ringbuf} (offset size : ℕ)
    → Holds file r
    → offset < 2 ^ 32
    → size < 2 ^ 32
    → read r offset size ≡ (
        if size == 0 || leb r.consumed offset && leb (offset + size) r.produced
        then some (stretch file offset size)
        else none)
unfolding read stretch
read_lem file offset zero h ho hs = refl
read_lem file {r} offset (suc n) h ho hs = elim (dec_le r.consumed offset) [
  | yes lo ↦ elim (dec_le (offset + suc n) r.produced) [
    | yes hi ↦ ground (arith, copied file offset (suc n) h lo hi ho)
    | no past ↦ ground arith
  ]
  | no behind ↦ ground arith
]

-- What the two sides do in turn: the producer fills, the consumer releases.
pub data Step (file : ℕ → ℕ) : Ringbuf → Ringbuf → Type 0 where
  filling :
      (r : Ringbuf) (n : ℕ)
      → n ≤ (writable r).2
      → r.produced + n < 2 ^ 32
      → Step file r (fill file r n)
  releasing : (r : Ringbuf) (offset : ℕ) → Step file r (consume_to r offset)

pub data Reach (file : ℕ → ℕ) (r : Ringbuf) : Ringbuf → Type 0 where
  here : Reach file r r
  next : {s t : Ringbuf} → Reach file r s → Step file s t → Reach file r t

Reach-Holds : (file : ℕ → ℕ) {r s : Ringbuf} → Holds file r → Reach file r s → Holds file s
Reach-Holds file h here = h
Reach-Holds file h (next w (filling s n fit small)) =
    fill-Holds file n (Reach-Holds file h w) fit small
Reach-Holds file h (next w (releasing s offset)) =
    consume_to-Holds file offset (Reach-Holds file h w)

-- From a freshly made window of less than 4 GB on, after any interleaving of releases and fills
-- from one file below 4 GB: a read at an offset and of a size below 4 GB gives the bytes of the
-- file in the range asked for if they are between the last release and the last fill (an empty
-- range always), and fails otherwise.
pub Reach-read :
    (file : ℕ → ℕ) (buf : List ℕ) (start offset size : ℕ) {r s : Ringbuf}
    → length buf < 2 ^ 32
    → start < 2 ^ 32
    → init (some buf) (length buf) start ≡ ok r
    → Reach file r s
    → offset < 2 ^ 32
    → size < 2 ^ 32
    → read s offset size ≡ (
        if size == 0 || leb s.consumed offset && leb (offset + size) s.produced
        then some (stretch file offset size)
        else none)
Reach-read file buf start offset size {r} small narrow made w ho hs =
    read_lem file offset size (Reach-Holds file (init-Holds file buf start small narrow made) w) ho
      hs
