-- ===== src/Avi/Walks.antt =====
-- nn20clock_avi.c: the walk over the chunks of a file, and what it knows of their places.
use videoalarmclock.Prelude.Words.{add32}
use videoalarmclock.Avi.Steps.{
  last_end, taken_lem, next_at, fuel_left, payload_at, size_at, Taken, whole_records, inner_lem,
  fuel_inside,
}
use videoalarmclock.Prelude.{
  ℕ, zero, suc, ◌+◌, ◌≤◌, ◌<◌, ◌≡◌, refl, inl, inr, Bool, true, false, ◌&&◌, not, some, List, arith,
  leb, ◌==◌, Bool-cases, Option-cases, leb→le, subst, if-either, and_both,
}
use videoalarmclock.Avi.{
  Reader, Info, fourcc_is, read_exact, four_at, room_for_header, read_chunk_header, list_type_bytes,
  index_record_bytes, no_info,
}
use videoalarmclock.Avi.Headers.{
  Walk, ended, out_of_fuel, parse_stream_list, list_found, found, Found, frames, streams, nested,
  index, skip, unreadable, resume, chunk_loop, parse_chunks, resume, chunk_loop, parse_chunks,
}
use videoalarmclock.Platform.{is_ok, esp_ok}
use videoalarmclock.Avi.Placed.{Placed, Leaves, stream_loop-Leaves}

-- A list that is entered begins behind its type, and an index has a record.
abbrev Fits : ℕ → ℕ → Found → Type 0
Fits payload size (frames inner) = (4 ≤ size) × (inner ≡ add32 payload list_type_bytes)
Fits payload size (streams inner) = (4 ≤ size) × (inner ≡ add32 payload list_type_bytes)
Fits payload size (nested inner) = (4 ≤ size) × (inner ≡ add32 payload list_type_bytes)
Fits payload size index = Unit
Fits payload size skip = Unit
Fits payload size unreadable = Unit

list_found-Fits :
    (payload size : ℕ) (list_type : List ℕ) (info : Info)
    → 4 ≤ size
    → Fits payload size (list_found (add32 payload list_type_bytes) list_type info)
unfolding list_found
list_found-Fits payload size list_type info h =
    if-either (Fits payload size) (fourcc_is list_type "movi") (h, refl)
      (if-either (Fits payload size) (fourcc_is list_type "strl") (h, refl)
        (if-either (Fits payload size) (not (info.movi_start == 0)) tt (h, refl)))

found-Fits :
    (read : Reader) (id : List ℕ) (payload size : ℕ) (info : Info)
    → Fits payload size (found read id payload size info)
unfolding found
found-Fits read id payload size info =
    elim (Bool-cases (fourcc_is id "LIST" && leb list_type_bytes size)) [
      | inl h ↦ elim (Option-cases (read_exact read payload list_type_bytes)) [
        | inl e ↦ rw (h, e) tt
        | inr (list_type, e) ↦
            rw (h, e)
              (list_found-Fits payload size (four_at list_type 0) info
                (leb→le 4 size (and_both _ _ h).1))
      ]
      | inr h ↦
          rw h (
            if-either (Fits payload size) (fourcc_is id "idx1" && leb index_record_bytes size) tt
              tt)
    ]

resume-Leaves :
    (P : Info → Type 0) (w : Walk) (k : Info → Walk)
    → Leaves P w
    → ((info : Info) → P info → Leaves P (k info))
    → Leaves P (resume w k)
resume-Leaves P out_of_fuel k p q = p
resume-Leaves P (ended info e) k p q = if-either (Leaves P) (is_ok e) (q info p) p

stream_list-Leaves :
    (fuel : ℕ) (read : Reader) (offset end top : ℕ) (info : Info)
    → end ≤ last_end
    → offset ≤ end + 1
    → end + 1 < offset + fuel
    → Placed top info
    → Leaves (Placed top) (parse_stream_list fuel read offset end info)
unfolding parse_stream_list
stream_list-Leaves fuel read offset end top info h j k p =
    stream_loop-Leaves fuel read offset end top _ h j k p

deeper-Leaves :
    (P : Info → Type 0) (info : Info) (b : Bool) (w : Walk)
    → P info
    → Leaves P w
    → Leaves P (elim b [ true ↦ ended info esp_ok | false ↦ w ])
deeper-Leaves P info true w p q = p
deeper-Leaves P info false w p q = q

-- what the walk over the chunks leaves on some fuel
Walks : ℕ → Reader → ℕ → Type 0
Walks fuel read top =
    (offset end depth : ℕ) (info : Info)
    → end ≤ top
    → top ≤ last_end
    → offset ≤ end + 1
    → end + 1 < offset + fuel
    → Placed top info
    → Leaves (Placed top) (chunk_loop fuel read offset end depth info)

-- one chunk of it, of which the tests answer `f`
chunk_lem :
    (fuel : ℕ) (read : Reader) (top offset end depth : ℕ) (info : Info) (id : List ℕ) (claimed : ℕ)
    (f : Found)
    → Walks fuel read top
    → end ≤ top
    → top ≤ last_end
    → offset ≤ end + 1
    → end + 1 < offset + suc fuel
    → Placed top info
    → room_for_header offset end ≡ true
    → read_chunk_header read offset ≡ some (id, claimed)
    → found read id (payload_at offset) (size_at offset claimed end) info ≡ f
    → Leaves (Placed top) (chunk_loop (suc fuel) read offset end depth info)
unfolding Walks chunk_loop
chunk_lem fuel read top offset end depth info id claimed f walks h0 h1 h2 h3 p room e q =
    go f q (subst (Fits payload size) q (found-Fits read id payload size info))
  where
    t : Taken offset claimed end
    t = taken_lem offset claimed end (omega arith) room

    payload : ℕ
    payload = payload_at offset

    size : ℕ
    size = size_at offset claimed end

    on :
        (info' : Info)
        → Placed top info'
        → Leaves (Placed top) (chunk_loop fuel read (next_at offset claimed end) end depth info')
    on info' p' =
        walks (next_at offset claimed end) end depth info' h0 h1 t.next_high
          (fuel_left offset (next_at offset claimed end) end fuel t.next_low h3) p'

    chunk_end : ℕ
    chunk_end = add32 payload size

    go :
        (f : Found)
        → found read id payload size info ≡ f
        → Fits payload size f
        → Leaves (Placed top) (chunk_loop (suc fuel) read offset end depth info)
    go unreadable q h = rw (chunk_loop, room, e, q) p
    go skip q h = rw (chunk_loop, room, e, q) (on info p)
    go index q h =
        rw (chunk_loop, room, e, q) (on _ (p.0, whole_records payload size end top t.inside h0))
    go (frames inner) q h =
        let w =
          inner_lem offset payload size end inner chunk_end t.payload t.inside (omega arith) h.0 h.1
            t.chunk_end in
        rw (chunk_loop, room, e, q) (on _ (inr (omega (arith, w.0), w.1, omega (arith, w.2)), p.1))
    go (streams inner) q h =
        let w =
          inner_lem offset payload size end inner chunk_end t.payload t.inside (omega arith) h.0 h.1
            t.chunk_end in
        rw (chunk_loop, room, e, q)
          (resume-Leaves (Placed top) _ _
            (stream_list-Leaves fuel read inner chunk_end top info (omega (arith, w.2))
              (omega (arith, w.1)) (fuel_inside offset end inner chunk_end fuel w.0 w.2 h3) p)
            on)
    go (nested inner) q h =
        let w =
          inner_lem offset payload size end inner chunk_end t.payload t.inside (omega arith) h.0 h.1
            t.chunk_end in
        rw (chunk_loop, room, e, q)
          (resume-Leaves (Placed top) _ _
            (deeper-Leaves (Placed top) info _ _ p (
              walks inner chunk_end (depth + 1) info (omega (arith, w.2)) h1 (omega (arith, w.1))
                (fuel_inside offset end inner chunk_end fuel w.0 w.2 h3) p))
            on)

chunk_loop-Walks : (fuel : ℕ) (read : Reader) (top : ℕ) → Walks fuel read top
unfolding Walks chunk_loop
chunk_loop-Walks zero read top offset end depth info h0 h1 h2 h3 p = absurd (omega arith)
chunk_loop-Walks (suc fuel) read top offset end depth info h0 h1 h2 h3 p =
    elim (Bool-cases (room_for_header offset end)) [
      | inr stop ↦ rw (chunk_loop, stop) p
      | inl room ↦ elim (Option-cases (read_chunk_header read offset)) [
        | inl gone ↦ rw (chunk_loop, room, gone) p
        | inr ((id, claimed), e) ↦
            chunk_lem fuel read top offset end depth info id claimed _
              (chunk_loop-Walks fuel read top) h0 h1 h2 h3 p room e refl
      ]
    ]

pub parse_chunks-Leaves :
    (fuel : ℕ) (read : Reader) (end : ℕ)
    → 12 < end
    → end ≤ last_end
    → end < fuel
    → Leaves (Placed end) (parse_chunks fuel read 12 end no_info)
unfolding parse_chunks Walks
parse_chunks-Leaves fuel read end h k l =
    chunk_loop-Walks fuel read end 12 end 0 no_info (omega arith) k (omega arith) (omega arith)
      (inl refl, omega arith)
