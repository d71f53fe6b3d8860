-- ===== src/Avi/Headers.antt =====
-- nn20clock_avi.c: the walk over the headers. A loop that its fuel does not reach the end of answers
-- `out_of_fuel`.
use videoalarmclock.Media.Paths.{is_empty}
use videoalarmclock.Prelude.{
  ℕ, zero, suc, ◌+◌, ◌/◌, min, true, false, ◌&&◌, not, Option, none, some, List, [], ◌∷◌, ltb, leb,
  ◌==◌, if◌then◌else◌,
}
use videoalarmclock.Prelude.Words.{add32}
use videoalarmclock.Platform.{EspErr, esp_ok, esp_fail, is_ok}
use videoalarmclock.Avi.{
  Reader, Info, chunk_header_bytes, list_type_bytes, index_record_bytes, le16, le32, four_at,
  fourcc_is, read_exact, read_chunk_header, room_for_header, set_codec, clamped, padded,
}

-- `MAX_LIST_DEPTH`
abbrev pub max_list_depth : ℕ
max_list_depth = 8

-- what a walk leaves in `info`, and its code
pub data Walk : Type 0 where
  ended : Info → EspErr → Walk
  out_of_fuel : Walk

-- the locals of `parse_stream_list`, and `info`
pub record Stream : Type 0 where
  pub stream_type : List ℕ
  pub handler : List ℕ
  pub info : Info

-- the branch of "strh"
unfoldable pub stream_header : List ℕ → ℕ → Stream → Stream
stream_header header want s =
    let typed : Stream = record s { stream_type = four_at header 0; handler = four_at header 4 } in
    if fourcc_is (four_at header 0) "vids" && leb 28 want
    then record typed {
      info = record s.info { video_scale = le32 header 20; video_rate = le32 header 24 };
    }
    else typed

-- the format of a video, a BITMAPINFOHEADER
unfoldable pub video_format : List ℕ → ℕ → List ℕ → Info → Info
video_format fmt want handler info =
    let sized : Info = record info { width = le32 fmt 4; height = le32 fmt 8 } in
    let named = if leb 20 want then set_codec sized (four_at fmt 16) else sized in
    if is_empty named.video_codec then set_codec named handler else named

-- that of sound, a WAVEFORMATEX
unfoldable pub audio_format_of : List ℕ → Info → Info
audio_format_of fmt info = record info {
  audio_format = le16 fmt 0;
  audio_channels = le16 fmt 2;
  audio_sample_rate = le32 fmt 4;
  audio_bits = le16 fmt 14;
}

-- the branch of "strf"
unfoldable pub stream_format : List ℕ → ℕ → Stream → Stream
unfolding video_format audio_format_of
stream_format fmt want s =
    if fourcc_is s.stream_type "vids" && leb 12 want
    then record s { info = video_format fmt want s.handler s.info }
    else if fourcc_is s.stream_type "auds" && leb 16 want
    then record s { info = audio_format_of fmt s.info }
    else s

-- one chunk of a stream list; `none` is ESP_FAIL
unfoldable pub stream_chunk : Reader → List ℕ → ℕ → ℕ → Stream → Option Stream
unfolding stream_header stream_format
stream_chunk read id payload size s =
    if fourcc_is id "strh"
    then elim (read_exact read payload (min size 56)) [
      | none ↦ none
      | some header ↦ some (stream_header header (min size 56) s)
    ]
    else if fourcc_is id "strf"
    then elim (read_exact read payload (min size 40)) [
      | none ↦ none
      | some fmt ↦ some (stream_format fmt (min size 40) s)
    ]
    else some s

-- the loop of `parse_stream_list`
unfoldable pub stream_loop : ℕ → Reader → ℕ → ℕ → Stream → Walk
stream_loop zero read offset end s = out_of_fuel
stream_loop (suc fuel) read offset end s = elim (room_for_header offset end) [
  | false ↦ ended s.info esp_ok
  | true ↦ elim (read_chunk_header read offset) [
    | none ↦ ended s.info esp_ok
    | some (id, claimed) ↦
        let payload = add32 offset chunk_header_bytes in
        let size = clamped claimed payload end in
        elim (stream_chunk read id payload size s) [
          | none ↦ ended s.info esp_fail
          | some s' ↦ stream_loop fuel read (padded payload size) end s'
        ]
  ]
]

-- `parse_stream_list`
unfoldable pub parse_stream_list : ℕ → Reader → ℕ → ℕ → Info → Walk
unfolding stream_loop
parse_stream_list fuel read offset end info =
    stream_loop fuel read offset end
      (record { stream_type = 0 ∷ 0 ∷ 0 ∷ 0 ∷ []; handler = 0 ∷ 0 ∷ 0 ∷ 0 ∷ []; info = info })

-- what a chunk asks of the walk: the first three with where the list's contents begin
pub data Found : Type 0 where
  frames streams nested : ℕ → Found
  index skip unreadable : Found

unfoldable pub list_found : ℕ → List ℕ → Info → Found
list_found inner list_type info =
    if fourcc_is list_type "movi"
    then frames inner
    else if fourcc_is list_type "strl"
    then streams inner
    else if not (info.movi_start == 0)
    then skip
    else nested inner

-- the tests of `parse_chunks` on one chunk
unfoldable pub found : Reader → List ℕ → ℕ → ℕ → Info → Found
unfolding list_found
found read id payload size info =
    if fourcc_is id "LIST" && leb list_type_bytes size
    then elim (read_exact read payload list_type_bytes) [
      | none ↦ unreadable
      | some list_type ↦ list_found (add32 payload list_type_bytes) (four_at list_type 0) info
    ]
    else if fourcc_is id "idx1" && leb index_record_bytes size
    then index
    else skip

-- what follows a walk inside, unless it failed
abbrev pub resume : Walk → (Info → Walk) → Walk
resume out_of_fuel k = out_of_fuel
resume (ended info e) k = if is_ok e then k info else ended info e

-- the loop of `parse_chunks`
unfoldable pub chunk_loop : ℕ → Reader → ℕ → ℕ → ℕ → Info → Walk
chunk_loop zero read offset end depth info = out_of_fuel
chunk_loop (suc fuel) read offset end depth info = elim (room_for_header offset end) [
  | false ↦ ended info esp_ok
  | true ↦ elim (read_chunk_header read offset) [
    | none ↦ ended info esp_ok
    | some (id, claimed) ↦
        let payload = add32 offset chunk_header_bytes in
        let size = clamped claimed payload end in
        let chunk_end = add32 payload size in
        let next = padded payload size in
        elim (found read id payload size info) [
          | unreadable ↦ ended info esp_fail
          | frames inner ↦
              chunk_loop fuel read next end depth
                (record info { movi_start = inner; movi_end = chunk_end })
          | streams inner ↦
              resume (parse_stream_list fuel read inner chunk_end info)
                (λ info'. chunk_loop fuel read next end depth info')
          | nested inner ↦
              resume
                (elim (ltb max_list_depth (depth + 1)) [
                  | true ↦ ended info esp_ok
                  | false ↦ chunk_loop fuel read inner chunk_end (depth + 1) info
                ])
                (λ info'. chunk_loop fuel read next end depth info')
          | index ↦
              chunk_loop fuel read next end depth
                (record info { index_offset = payload; index_count = size / index_record_bytes })
          | skip ↦ chunk_loop fuel read next end depth info
        ]
  ]
]

-- `parse_chunks` from depth 0
unfoldable pub parse_chunks : ℕ → Reader → ℕ → ℕ → Info → Walk
unfolding chunk_loop
parse_chunks fuel read offset end info = chunk_loop fuel read offset end 0 info
