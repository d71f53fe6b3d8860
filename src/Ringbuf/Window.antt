-- ===== src/Ringbuf/Window.antt =====
-- The bytes of the window are those of the file: the invariant, and what each operation does to it.
use videoalarmclock.Ringbuf.Wrap.{mod_apart, mod-add_of_fit}
use native.Mathlib.Decide.{dec_le, dec_lt}
use videoalarmclock.Platform.{ok}
use videoalarmclock.Prelude.{
  ℕ, zero, suc, ◌+◌, ◌-◌, ◌%◌, ◌^◌, ◌≤◌, ◌<◌, ◌≡◌, refl, sym, ap, ◌∙◌, ◌≢◌, ◌↔◌, ◌⊎◌, some, List,
  [], ◌∷◌, arith, length, get_or, set, length-set, subst,
}
use native.Mathlib.Nat.{mod-lt}
use videoalarmclock.Ringbuf.{Ringbuf, init, reset, writable, produced, consume_to, index_of, sub32}

-- `n` bytes of a file from offset `o` on
unfoldable pub stretch : (ℕ → ℕ) → ℕ → ℕ → List ℕ
stretch file o zero = []
stretch file o (suc n) = file o ∷ stretch file (o + 1) n

-- What the caller of `nn20clock_ringbuf_writable` does with `out_dst`: bytes put one after another.
unfoldable pub write_at : List ℕ → ℕ → List ℕ → List ℕ
write_at buf i [] = buf
write_at buf i (b ∷ bs) = write_at (set buf i b) (i + 1) bs

-- A fill of `n` bytes of the file at the place that `writable` reports, and its publication.
unfoldable pub fill : (ℕ → ℕ) → Ringbuf → ℕ → Ringbuf
fill file r n =
    let (offset, index, count) = writable r in
    produced (record r { buf = write_at r.buf index (stretch file offset n) }) n

-- The window is in the buffer, wraps nowhere, and holds the bytes of `file`.
pub record Holds (file : ℕ → ℕ) (r : Ringbuf) : Type 0 where
  pub sized : length r.buf ≡ r.capacity
  pub room : 0 < r.capacity
  pub small : r.capacity < 2 ^ 32
  pub based : r.base ≤ r.consumed
  pub ordered : r.consumed ≤ r.produced
  pub fits : r.produced ≤ r.consumed + r.capacity
  pub narrow : r.produced < 2 ^ 32
  pub bytes :
      (o : ℕ)
      → r.consumed ≤ o
      → o < r.produced
      → get_or r.buf ((o - r.base) % r.capacity) 0 ≡ file o

length-write_at : (buf : List ℕ) (i : ℕ) (bs : List ℕ) → length (write_at buf i bs) ≡ length buf
unfolding write_at
length-write_at buf i [] = refl
length-write_at buf i (b ∷ bs) = length-write_at (set buf i b) (i + 1) bs ∙ length-set buf i b

get_or-set_self : (xs : List ℕ) (i v : ℕ) → i < length xs → get_or (set xs i v) i 0 ≡ v
get_or-set_self [] i v h = absurd (omega arith)
get_or-set_self (x ∷ xs) zero v h = refl
get_or-set_self (x ∷ xs) (suc i) v h = get_or-set_self xs i v (omega arith)

get_or-set_ne : (xs : List ℕ) (i j v : ℕ) → i ≢ j → get_or (set xs i v) j 0 ≡ get_or xs j 0
get_or-set_ne [] i j v h = refl
get_or-set_ne (x ∷ xs) zero zero v h = absurd (h refl)
get_or-set_ne (x ∷ xs) zero (suc j) v h = refl
get_or-set_ne (x ∷ xs) (suc i) zero v h = refl
get_or-set_ne (x ∷ xs) (suc i) (suc j) v h = get_or-set_ne xs i j v (λ e. h (ap suc e))

-- Outside the stretch written the buffer is what it was.
write_at_outside :
    (file : ℕ → ℕ) (buf : List ℕ) (i o n k : ℕ)
    → (k < i) ⊎ (i + n ≤ k)
    → get_or (write_at buf i (stretch file o n)) k 0 ≡ get_or buf k 0
unfolding write_at stretch
write_at_outside file buf i o zero k out = refl
write_at_outside file buf i o (suc n) k out =
    write_at_outside file (set buf i (file o)) (i + 1) (o + 1) n k (omega arith)
    ∙ get_or-set_ne buf i k (file o) (omega arith)

-- Inside it stand the bytes of the file.
write_at_inside :
    (file : ℕ → ℕ) (buf : List ℕ) (i o n j : ℕ)
    → i + n ≤ length buf
    → j < n
    → get_or (write_at buf i (stretch file o n)) (i + j) 0 ≡ file (o + j)
unfolding write_at stretch
write_at_inside file buf i o zero j fit h = absurd (omega arith)
write_at_inside file buf i o (suc n) zero fit h =
    write_at_outside file (set buf i (file o)) (i + 1) (o + 1) n (i + 0) (omega arith)
    ∙ ground (arith, get_or-set_self buf i (file o) (omega arith))
write_at_inside file buf i o (suc n) (suc j) fit h = ground (
  arith,
  write_at_inside file (set buf i (file o)) (i + 1) (o + 1) n j,
  length-set buf i (file o),
)

-- No subtraction on uint32_t wraps in a window that is in order.
pub sub32_of_le : (a b : ℕ) → b ≤ a → a < 2 ^ 32 → sub32 a b ≡ a - b
sub32_of_le a b h k = omega arith

pub index_of_lem :
    (r : Ringbuf) (o : ℕ) → r.base ≤ o → o < 2 ^ 32 → index_of r o ≡ (o - r.base) % r.capacity
index_of_lem r o h k = ap (λ (d : ℕ). d % r.capacity) (sub32_of_le o r.base h k)

-- A fresh or restarted window holds any file: it is empty.
pub init-Holds :
    (file : ℕ → ℕ) (buf : List ℕ) (start : ℕ) {r : Ringbuf}
    → length buf < 2 ^ 32
    → start < 2 ^ 32
    → init (some buf) (length buf) start ≡ ok r
    → Holds file r
unfolding init
init-Holds file buf start small narrow e = grind arith

pub reset-Holds :
    (file : ℕ → ℕ) {r : Ringbuf} (start : ℕ)
    → start < 2 ^ 32
    → Holds file r
    → Holds file (reset r start)
unfolding reset
reset-Holds file {r} start narrow h = record {
  sized = h.sized;
  room = h.room;
  small = h.small;
  based = omega arith;
  ordered = omega arith;
  fits = omega arith;
  narrow = narrow;
  bytes = λ o lo hi. absurd (omega arith);
}

-- What `writable` reports of a well-formed window: the write position in order, a count that fits
-- both the free space and the run up to the end of the buffer, and 0 only if the window is full.
pub writable_lem :
    (file : ℕ → ℕ) {r : Ringbuf}
    → Holds file r
    → let (offset, index, count) = writable r in
      (offset ≡ r.produced)
      × (index ≡ (r.produced - r.base) % r.capacity)
      × (index + count ≤ r.capacity)
      × (r.produced + count ≤ r.consumed + r.capacity)
      × ((count ≡ 0) ↔ (r.produced ≡ r.consumed + r.capacity))
unfolding writable
writable_lem file {r} h = ground (
  arith,
  index_of_lem r r.produced,
  sub32_of_le r.produced r.consumed,
  sub32_of_le r.capacity (r.produced - r.consumed),
  sub32_of_le r.capacity ((r.produced - r.base) % r.capacity),
  mod-lt (r.produced - r.base) {m = r.capacity} h.room,
)

pub consume_to-Holds :
    (file : ℕ → ℕ) {r : Ringbuf} (offset : ℕ) → Holds file r → Holds file (consume_to r offset)
unfolding consume_to
consume_to-Holds file {r} offset h = elim (dec_le offset r.consumed) [
  | yes p ↦ ground arith
  | no p ↦ grind arith
]

-- The window after a fill, in plain arithmetic.
filled : (ℕ → ℕ) → Ringbuf → ℕ → Ringbuf
filled file r n = record r {
  buf = write_at r.buf ((r.produced - r.base) % r.capacity) (stretch file r.produced n);
  produced = r.produced + n;
}

fill-filled :
    (file : ℕ → ℕ) {r : Ringbuf} (n : ℕ)
    → Holds file r
    → r.produced + n < 2 ^ 32
    → fill file r n ≡ filled file r n
unfolding fill filled produced write_at stretch
fill-filled file {r} zero h small = ground (arith, writable_lem file h)
fill-filled file {r} (suc n) h small = let w = writable_lem file h in rw (w.0, w.1) ground arith

-- Each byte of the window after a fill.
filled-bytes :
    (file : ℕ → ℕ) {r : Ringbuf} (n o : ℕ)
    → Holds file r
    → n ≤ (writable r).2
    → r.consumed ≤ o
    → o < r.produced + n
    → get_or (filled file r n).buf ((o - r.base) % r.capacity) 0 ≡ file o
unfolding filled
filled-bytes file {r} n o h fit lo hi = elim (dec_lt o r.produced) [
  | yes old ↦
      write_at_outside file r.buf index r.produced n ((o - r.base) % r.capacity) (apart old)
      ∙ h.bytes o lo old
  | no new ↦
      subst (λ k. get_or (write_at r.buf index (stretch file r.produced n)) k 0 ≡ file o)
        (sym (position new))
        (write_at_inside file r.buf index r.produced n (o - r.produced) (omega (arith, w, h.sized))
            (omega arith)
          ∙ ap file (omega arith))
]
  where
    index : ℕ
    index = (r.produced - r.base) % r.capacity

    w : (index + n ≤ r.capacity) × (r.produced + n ≤ r.consumed + r.capacity)
    w = omega (arith, writable_lem file h)

    apart :
        o < r.produced
        → ((o - r.base) % r.capacity < index) ⊎ (index + n ≤ (o - r.base) % r.capacity)
    apart old =
        mod_apart r.capacity (o - r.base) (r.produced - r.base) n (omega arith) (omega (arith, w))
          w.0

    position : ¬ (o < r.produced) → (o - r.base) % r.capacity ≡ index + (o - r.produced)
    position new =
        ap (λ (d : ℕ). d % r.capacity) (omega arith)
        ∙ mod-add_of_fit r.capacity (r.produced - r.base) (o - r.produced) (omega (arith, w))

-- A fill of at most the reported count, of a file of less than 4 GB, keeps the invariant.
pub fill-Holds :
    (file : ℕ → ℕ) {r : Ringbuf} (n : ℕ)
    → Holds file r
    → n ≤ (writable r).2
    → r.produced + n < 2 ^ 32
    → Holds file (fill file r n)
fill-Holds file {r} n h fit small = rw (fill-filled file n h small) (
    unfold filled in
    record {
      sized = length-write_at r.buf _ _ ∙ h.sized;
      room = h.room;
      small = h.small;
      based = h.based;
      ordered = omega arith;
      fits = omega (arith, (writable_lem file h).3);
      narrow = small;
      bytes = λ o lo hi. filled-bytes file n o h fit lo hi;
    })
