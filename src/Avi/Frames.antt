-- ===== src/Avi/Frames.antt =====
-- nn20clock_avi.c: the chunks of the movi list, one call after the other.
use videoalarmclock.Prelude.{
  ℕ, zero, suc, true, false, ◌&&◌, ◌||◌, none, some, List, ltb, ◌==◌, if◌then◌else◌,
}
use videoalarmclock.Prelude.Words.{add32}
use videoalarmclock.Avi.{
  Reader, Info, fourcc_is, byte_at, read_chunk_header, room_for_header, clamped, padded,
  chunk_header_bytes, list_type_bytes,
}

-- `NN20ClockAviChunkKind`
pub data ChunkKind : Type 0 where
  video audio other : ChunkKind

-- `NN20ClockAviChunk`
pub record Chunk : Type 0 where
  pub kind : ChunkKind
  pub offset : ℕ
  pub size : ℕ

-- `chunk_kind`
abbrev pub chunk_kind : List ℕ → ChunkKind
chunk_kind id =
    if (byte_at id 2 == b'd') && ((byte_at id 3 == b'c') || (byte_at id 3 == b'b'))
    then video
    else if (byte_at id 2 == b'w') && (byte_at id 3 == b'b')
    then audio
    else other

-- what a call answers, each with the cursor that it leaves
pub data Next : Type 0 where
  chunk : Chunk → ℕ → Next
  not_found : ℕ → Next
  out_of_fuel : Next

-- its loop
unfoldable pub next_loop : ℕ → Reader → Info → ℕ → Next
next_loop zero read info offset = out_of_fuel
next_loop (suc fuel) read info offset = elim (room_for_header offset info.movi_end) [
  | false ↦ not_found info.movi_end
  | true ↦ elim (read_chunk_header read offset) [
    | none ↦ not_found info.movi_end
    | some (id, claimed) ↦
        let payload = add32 offset chunk_header_bytes in
        let size = clamped claimed payload info.movi_end in
        elim (fourcc_is id "LIST") [
          | true ↦ next_loop fuel read info (add32 payload list_type_bytes)
          | false ↦
              chunk (record { kind = chunk_kind id; offset = payload; size = size })
                (padded payload size)
        ]
  ]
]

-- `nn20clock_avi_next_chunk`
unfoldable pub next_chunk : ℕ → Reader → Info → ℕ → Next
unfolding next_loop
next_chunk fuel read info cursor =
    next_loop fuel read info (if ltb cursor info.movi_start then info.movi_start else cursor)
