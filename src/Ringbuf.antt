-- ===== src/Ringbuf.antt =====
-- sources/components/nn20clock_ringbuf: a window over a byte stream, addressed by absolute file
-- offsets. `size_t` and the offsets are 32 bits wide, as on the target.
pub mod Wrap
pub mod Window
pub mod Stream
use videoalarmclock.Prelude.{
  ℕ, ◌+◌, ◌%◌, ◌||◌, Option, none, some, List, [], ◌++◌, ltb, leb, ◌==◌, if◌then◌else◌, take, drop,
}
pub use videoalarmclock.Prelude.Words.{u32, sub32}
use videoalarmclock.Platform.{Result, ok, err, invalid_arg}

-- `NN20ClockRingbuf`; `buf` is the borrowed memory behind the field `data`
pub record Ringbuf : Type 0 where
  pub buf : List ℕ
  pub capacity : ℕ
  pub produced : ℕ
  pub consumed : ℕ
  pub base : ℕ

-- `nn20clock_ringbuf_init`; a NULL buffer is `none`
unfoldable pub init : Option (List ℕ) → ℕ → ℕ → Result Ringbuf
init none capacity start = err invalid_arg
init (some buf) capacity start =
    if capacity == 0
    then err invalid_arg
    else ok (record {
      buf = buf;
      capacity = capacity;
      produced = start;
      consumed = start;
      base = start;
    })

-- `nn20clock_ringbuf_reset`
unfoldable pub reset : Ringbuf → ℕ → Ringbuf
reset r start = record r { produced = start; consumed = start; base = start }

-- `(size_t)((offset - pthis->base) % pthis->capacity)`
abbrev pub index_of : Ringbuf → ℕ → ℕ
index_of r offset = sub32 offset r.base % r.capacity

-- `nn20clock_ringbuf_writable`: the offset, the index behind `out_dst`, and the count
unfoldable pub writable : Ringbuf → ℕ × ℕ × ℕ
writable r =
    let held = sub32 r.produced r.consumed in
    let free_bytes = sub32 r.capacity held in
    let index = index_of r r.produced in
    let to_end = sub32 r.capacity index in
    (r.produced, index, if ltb free_bytes to_end then free_bytes else to_end)

-- `nn20clock_ringbuf_produced`
unfoldable pub produced : Ringbuf → ℕ → Ringbuf
produced r bytes = if bytes == 0 then r else record r { produced = u32 (r.produced + u32 bytes) }

-- `memcpy` out of the buffer
abbrev pub slice : List ℕ → ℕ → ℕ → List ℕ
slice buf index size = take size (drop index buf)

-- the two ways to copy: in one piece, or in two where the range straddles the end of the buffer
unfoldable pub copy_out : List ℕ → ℕ → ℕ → ℕ → List ℕ
copy_out buf index to_end size =
    if leb size to_end
    then slice buf index size
    else slice buf index to_end ++ slice buf 0 (sub32 size to_end)

-- `nn20clock_ringbuf_read`: the bytes copied to `dst`, or `none` for `false`
unfoldable pub read : Ringbuf → ℕ → ℕ → Option (List ℕ)
read r offset size =
    if size == 0
    then some []
    else if ltb r.capacity size
    then none
    else if ltb offset r.consumed || ltb r.produced offset
    then none
    else if ltb (sub32 r.produced offset) (u32 size)
    then none
    else let index = index_of r offset in some (copy_out r.buf index (sub32 r.capacity index) size)

-- `nn20clock_ringbuf_consume_to`
unfoldable pub consume_to : Ringbuf → ℕ → Ringbuf
consume_to r offset =
    if leb offset r.consumed
    then r
    else record r { consumed = if ltb r.produced offset then r.produced else offset }

-- `nn20clock_ringbuf_start`, `_end` and `_available`
unfoldable pub start : Ringbuf → ℕ
start r = r.consumed

unfoldable pub end : Ringbuf → ℕ
end r = r.produced

unfoldable pub available : Ringbuf → ℕ
available r = sub32 r.produced r.consumed
