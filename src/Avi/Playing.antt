-- ===== src/Avi/Playing.antt =====
-- nn20clock_avi.c: what the calls for the next chunk answer.
use videoalarmclock.Prelude.{
  ℕ, zero, suc, ◌+◌, ◌-◌, ◌%◌, ◌^◌, ◌≤◌, ◌<◌, ◌≡◌, refl, inl, inr, arith, ltb, Bool-cases,
  Option-cases, if-split,
}
use videoalarmclock.Avi.{Reader, Info, fourcc_is, read_chunk_header, room_for_header}
use videoalarmclock.Avi.Frames.{Next, chunk, not_found, out_of_fuel, next_loop, next_chunk}
use videoalarmclock.Avi.Steps.{taken_lem, payload_at, size_at, add32_lem, padded_lem}

-- the largest end of the frames at which no cursor wraps: a list's header takes 12 bytes, and 8 of
-- them may be the last
abbrev pub last_frames_end : ℕ
last_frames_end = 2 ^ 32 - 5

-- What a call from `cursor` may answer: a chunk that lies within the frames, with a cursor behind
-- it, or the end of the frames.
abbrev pub Plays : Info → ℕ → Next → Type 0
Plays info cursor (chunk c after) =
    (info.movi_start + 8 ≤ c.offset)
    × (cursor + 8 ≤ c.offset)
    × (c.offset + c.size ≤ info.movi_end)
    × (after ≡ c.offset + c.size + c.size % 2)
Plays info cursor (not_found after) = after ≡ info.movi_end
Plays info cursor out_of_fuel = ⊥

next_loop-Plays :
    (fuel : ℕ) (read : Reader) (info : Info) (cursor offset : ℕ)
    → info.movi_end ≤ last_frames_end
    → info.movi_start ≤ offset
    → cursor ≤ offset
    → offset ≤ info.movi_end + 4
    → info.movi_end + 4 < offset + fuel
    → Plays info cursor (next_loop fuel read info offset)
unfolding next_loop
next_loop-Plays zero read info cursor offset h0 h1 h2 h3 h4 = absurd (omega arith)
next_loop-Plays (suc fuel) read info cursor offset h0 h1 h2 h3 h4 =
    elim (Bool-cases (room_for_header offset info.movi_end)) [
      | inr stop ↦ rw (next_loop, stop) refl
      | inl room ↦ elim (Option-cases (read_chunk_header read offset)) [
        | inl gone ↦ rw (next_loop, room, gone) refl
        | inr ((id, claimed), e) ↦
            let t = taken_lem offset claimed info.movi_end (omega arith) room in
            elim (Bool-cases (fourcc_is id "LIST")) [
              | inl list ↦
                  rw (next_loop, room, e, list)
                    let inner = add32_lem (payload_at offset) 4 (omega (arith, t.payload)) in
                      rw inner (
                        next_loop-Plays fuel read info cursor (payload_at offset + 4) h0
                          (omega (arith, t.payload)) (omega (arith, t.payload))
                          (omega (arith, t.payload, t.inside)) (omega (arith, t.payload)))
              | inr leaf ↦
                  rw (next_loop, room, e, leaf)
                    (
                      omega (arith, t.payload),
                      omega (arith, t.payload),
                      t.inside,
                      padded_lem (payload_at offset) (size_at offset claimed info.movi_end)
                          info.movi_end t.inside (omega arith),
                    )
            ]
      ]
    ]

-- A call for the next chunk ends, from any cursor within the frames: it answers a chunk that lies
-- within the frames and behind the cursor, with the cursor behind that chunk and its padding, or the
-- end of the frames. The frames end before 2 ^ 32 - 4, and the fuel is as many as bytes are left,
-- and five more.
pub next_chunk-Plays :
    (fuel : ℕ) (read : Reader) (info : Info) (cursor : ℕ)
    → info.movi_start ≤ info.movi_end
    → info.movi_end ≤ last_frames_end
    → cursor ≤ info.movi_end + 1
    → info.movi_end + 4 < cursor + fuel
    → Plays info cursor (next_chunk fuel read info cursor)
unfolding next_chunk
next_chunk-Plays fuel read info cursor h0 h1 h2 h3 =
    if-split (λ offset. Plays info cursor (next_loop fuel read info offset))
      (ltb cursor info.movi_start)
      (λ before.
        next_loop-Plays fuel read info cursor info.movi_start h1 (omega arith)
          (ground (arith, before)) (omega arith) (ground (arith, before)))
      (λ after.
        next_loop-Plays fuel read info cursor cursor h1 (ground (arith, after)) (omega arith)
          (omega arith) (omega arith))
