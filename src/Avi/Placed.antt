-- ===== src/Avi/Placed.antt =====
-- nn20clock_avi.c: what the walk over the headers says of the places in a file.
use videoalarmclock.Prelude.Words.{add32}
use videoalarmclock.Avi.Steps.{last_end, taken_lem, next_at, fuel_left}
use videoalarmclock.Media.Paths.{is_empty}
use videoalarmclock.Prelude.{
  ℕ, zero, suc, ◌+◌, ◌*◌, ◌≤◌, ◌<◌, min, ◌≡◌, ◌⊎◌, inl, inr, ◌&&◌, Option, none, some, List, arith,
  leb, if◌then◌else◌, Bool-cases, Option-cases, if-either, subst,
}
use videoalarmclock.Avi.{
  Reader, Info, set_codec, fourcc_is_blank, fourcc_is, read_exact, four_at, le32, room_for_header,
  read_chunk_header, clamped, chunk_header_bytes,
}
use videoalarmclock.Avi.Headers.{
  Walk, ended, out_of_fuel, Stream, stream_header, stream_format, video_format, audio_format_of,
  stream_chunk, stream_loop,
}

-- Frames and index, where a file has them, end within its first `end` bytes.
abbrev pub Placed : ℕ → Info → Type 0
Placed end info =
    ((info.movi_start ≡ 0)
      ⊎ ((12 ≤ info.movi_start) × (info.movi_start ≤ info.movi_end) × (info.movi_end ≤ end)))
    × (info.index_offset + info.index_count * 16 ≤ end)

-- A walk that its fuel ends, with what holds of what it leaves.
abbrev pub Leaves : (Info → Type 0) → Walk → Type 0
Leaves P (ended info e) = P info
Leaves P out_of_fuel = ⊥

set_codec-Placed :
    (end : ℕ) (info : Info) (id : List ℕ) → Placed end info → Placed end (set_codec info id)
unfolding set_codec
set_codec-Placed end info id p = if-either (Placed end) (fourcc_is_blank id) p p

video_format-Placed :
    (end : ℕ) (fmt : List ℕ) (want : ℕ) (handler : List ℕ) (info : Info)
    → Placed end info
    → Placed end (video_format fmt want handler info)
unfolding video_format
video_format-Placed end fmt want handler info p =
    let sized : Info = record info { width = le32 fmt 4; height = le32 fmt 8 } in
    let named = if leb 20 want then set_codec sized (four_at fmt 16) else sized in
    let q : Placed end named =
      if-either (Placed end) (leb 20 want) (set_codec-Placed end sized (four_at fmt 16) p) p in
    if-either (Placed end) (is_empty named.video_codec) (set_codec-Placed end named handler q) q

stream_header-Placed :
    (end : ℕ) (header : List ℕ) (want : ℕ) (s : Stream)
    → Placed end s.info
    → Placed end (stream_header header want s).info
unfolding stream_header
stream_header-Placed end header want s p =
    if-either (λ t. Placed end (Stream.info t)) (fourcc_is (four_at header 0) "vids" && leb 28 want)
      p p

stream_format-Placed :
    (end : ℕ) (fmt : List ℕ) (want : ℕ) (s : Stream)
    → Placed end s.info
    → Placed end (stream_format fmt want s).info
unfolding stream_format audio_format_of
stream_format-Placed end fmt want s p =
    if-either (λ t. Placed end (Stream.info t)) (fourcc_is s.stream_type "vids" && leb 12 want)
      (video_format-Placed end fmt want s.handler s.info p)
      (if-either (λ t. Placed end (Stream.info t)) (fourcc_is s.stream_type "auds" && leb 16 want) p
        p)

-- what a chunk of a stream list leaves, unless it cannot be read
abbrev Kept : ℕ → Option Stream → Type 0
Kept end none = Unit
Kept end (some s) = Placed end s.info

Kept-read :
    (end : ℕ) (o : Option (List ℕ)) (f : List ℕ → Stream)
    → ((b : List ℕ) → Placed end (f b).info)
    → Kept end (elim o [ none ↦ none | some b ↦ some (f b) ])
Kept-read end none f p = tt
Kept-read end (some b) f p = p b

stream_chunk-Kept :
    (read : Reader) (id : List ℕ) (payload size : ℕ) (s : Stream) (end : ℕ)
    → Placed end s.info
    → Kept end (stream_chunk read id payload size s)
unfolding stream_chunk
stream_chunk-Kept read id payload size s end p =
    if-either (Kept end) (fourcc_is id "strh")
      (Kept-read end (read_exact read payload (min size 56))
        (λ header. stream_header header (min size 56) s)
        (λ header. stream_header-Placed end header (min size 56) s p))
      (if-either (Kept end) (fourcc_is id "strf")
        (Kept-read end (read_exact read payload (min size 40))
          (λ fmt. stream_format fmt (min size 40) s)
          (λ fmt. stream_format-Placed end fmt (min size 40) s p))
        p)

pub stream_loop-Leaves :
    (fuel : ℕ) (read : Reader) (offset end top : ℕ) (s : Stream)
    → end ≤ last_end
    → offset ≤ end + 1
    → end + 1 < offset + fuel
    → Placed top s.info
    → Leaves (Placed top) (stream_loop fuel read offset end s)
unfolding stream_loop
stream_loop-Leaves zero read offset end top s h j k p = absurd (omega arith)
stream_loop-Leaves (suc fuel) read offset end top s h j k p =
    elim (Bool-cases (room_for_header offset end)) [
      | inr stop ↦ rw (stream_loop, stop) p
      | inl room ↦ elim (Option-cases (read_chunk_header read offset)) [
        | inl gone ↦ rw (stream_loop, room, gone) p
        | inr ((id, claimed), e) ↦
            let t = taken_lem offset claimed end h room in
            let payload = add32 offset chunk_header_bytes in
            let size = clamped claimed payload end in
            let kept = stream_chunk-Kept read id payload size s top p in
            elim (Option-cases (stream_chunk read id payload size s)) [
              | inl failed ↦ rw (stream_loop, room, e, failed) p
              | inr (s', fine) ↦
                  rw (stream_loop, room, e, fine)
                    (stream_loop-Leaves fuel read (next_at offset claimed end) end top s' h
                      t.next_high
                      (fuel_left offset (next_at offset claimed end) end fuel t.next_low k)
                      (subst (Kept top) fine kept))
            ]
      ]
    ]
