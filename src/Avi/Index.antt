-- ===== src/Avi/Index.antt =====
-- nn20clock_avi.c: the index, and the position of a film.
use videoalarmclock.Prelude.Bytes.{str_eq}
use videoalarmclock.Ringbuf.{sub32, u32}
use videoalarmclock.Prelude.{
  ℕ, zero, suc, ◌-◌, ◌*◌, ◌/◌, min, Bool, false, ◌||◌, Option, none, some, List, ltb, leb, ◌==◌,
  if◌then◌else◌,
}
use videoalarmclock.Prelude.Words.{add32, sub32, u32}
use videoalarmclock.Avi.{
  Reader, Info, four_at, le32, read_exact, read_chunk_header, list_type_bytes, index_record_bytes,
}
use videoalarmclock.Avi.Frames.{video, chunk_kind}
use videoalarmclock.Platform.{Result, ok, err, not_supported, not_found}

-- `INDEX_SEARCH_SPAN`
abbrev pub index_search_span : ℕ
index_search_span = 32

-- `read_index_record`: the id and the offset
unfoldable pub read_index_record : Reader → Info → ℕ → Option (List ℕ × ℕ)
read_index_record read info n =
    if leb info.index_count n
    then none
    else elim (read_exact read (add32 info.index_offset (u32 (n * index_record_bytes)))
        index_record_bytes) [ none ↦ none | some entry ↦ some (four_at entry 0, le32 entry 8) ]

-- whether an offset is before the frames, or behind them
abbrev pub off_frames : Info → ℕ → Bool
off_frames info at = ltb at info.movi_start || leb info.movi_end at

-- `base_agrees`
unfoldable pub base_agrees : Reader → Info → ℕ → List ℕ → ℕ → Bool
base_agrees read info base want_id record_offset =
    let at = add32 base record_offset in
    if off_frames info at
    then false
    else elim (read_chunk_header read at) [ none ↦ false | some (id, size) ↦ str_eq id want_id ]

-- `resolve_index_base`
unfoldable pub resolve_index_base : Reader → Info → Info
resolve_index_base read info =
    if (info.index_count == 0) || (info.movi_start == 0)
    then info
    else elim (read_index_record read info 0) [
      | none ↦ record info { index_count = 0 }
      | some (id, offset) ↦
          let from_movi = sub32 info.movi_start list_type_bytes in
          if base_agrees read info from_movi id offset
          then record info { index_base = from_movi }
          else if base_agrees read info 0 id offset
          then record info { index_base = 0 }
          else record info { index_count = 0 }
    ]

-- `nn20clock_avi_has_index`
abbrev pub has_index : Info → Bool
has_index info = ltb 0 info.index_count

-- `video_record_at`: the cursor, or `none` for `false`
unfoldable pub video_record_at : Reader → Info → ℕ → Option ℕ
video_record_at read info n = elim (read_index_record read info n) [
  | none ↦ none
  | some (id, offset) ↦ elim (chunk_kind id) [
    | video ↦ let at = add32 info.index_base offset in if off_frames info at then none else some at
    | _ ↦ none
  ]
]

-- the loop of a seek towards the end, over as many records as its first argument, and that towards
-- the beginning
unfoldable pub search_on : ℕ → Reader → Info → ℕ → Option ℕ
search_on zero read info n = none
search_on (suc span) read info n =
    if leb info.index_count n then none else elim (video_record_at read info n) [
      | some at ↦ some at
      | none ↦ search_on span read info (add32 n 1)
    ]

unfoldable pub search_back : ℕ → Reader → Info → ℕ → Option ℕ
search_back zero read info n = none
search_back (suc span) read info zero = none
search_back (suc span) read info (suc n) = elim (video_record_at read info n) [
  | some at ↦ some at
  | none ↦ search_back span read info n
]

-- the record that a position stands for
abbrev pub first_record : Info → ℕ → ℕ
first_record info permille =
    let first = u32 (info.index_count * min permille 1000 / 1000) in
    if leb info.index_count first then sub32 info.index_count 1 else first

-- `nn20clock_avi_seek`
unfoldable pub seek : Reader → Info → ℕ → Result ℕ
unfolding search_on search_back
seek read info permille =
    if has_index info
    then elim (search_on index_search_span read info (first_record info permille)) [
      | some at ↦ ok at
      | none ↦ elim (search_back index_search_span read info (first_record info permille)) [
        | some at ↦ ok at
        | none ↦ err not_found
      ]
    ]
    else err not_supported

-- `nn20clock_avi_position_permille`
unfoldable pub position_permille : Info → ℕ → ℕ
position_permille info cursor =
    if leb info.movi_end info.movi_start
    then 0
    else if leb cursor info.movi_start
    then 0
    else if leb info.movi_end cursor
    then 1000
    else (cursor - info.movi_start) * 1000 / (info.movi_end - info.movi_start)
