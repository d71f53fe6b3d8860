-- ===== src/Avi.antt =====
-- sources/components/nn20clock_avi: the container of a film, read through a callback that is a
-- parameter. It answers the bytes that it has read at an offset, fewer than asked for at the end of
-- the file. A buffer of uint8_t is a list; past its end it is the zeroes that it was filled with.
pub mod Headers
pub mod Steps
pub mod Placed
pub mod Walks
pub mod Film
pub mod Wrap
pub mod Landing
pub mod Playing
pub mod Position
pub mod Aligned
pub mod Frames
pub mod Index
pub mod Parse
use videoalarmclock.Prelude.{
  ℕ, ◌+◌, ◌*◌, ◌%◌, ◌^◌, Bool, true, ◌&&◌, ◌||◌, Option, none, some, List, [], ◌∷◌, ltb, leb, ◌==◌,
  if◌then◌else◌, length, get_or,
}
use Prim.Native.String.{String}
use videoalarmclock.Prelude.Bytes.{codes, str_eq, to_upper, c_string}
use videoalarmclock.Prelude.Words.{add32, sub32}

-- `NN20ClockAviReadFn`
abbrev pub Reader : Type 0
Reader = ℕ → ℕ → List ℕ

-- `NN20ClockAviInfo`; `video_codec` is the string that the field holds
pub record Info : Type 0 where
  pub width : ℕ
  pub height : ℕ
  pub video_rate : ℕ
  pub video_scale : ℕ
  pub video_codec : List ℕ
  pub audio_format : ℕ
  pub audio_channels : ℕ
  pub audio_sample_rate : ℕ
  pub audio_bits : ℕ
  pub movi_start : ℕ
  pub movi_end : ℕ
  pub index_offset : ℕ
  pub index_count : ℕ
  pub index_base : ℕ

-- `memset` of the whole
abbrev pub no_info : Info
no_info = record {
  width = 0;
  height = 0;
  video_rate = 0;
  video_scale = 0;
  video_codec = [];
  audio_format = 0;
  audio_channels = 0;
  audio_sample_rate = 0;
  audio_bits = 0;
  movi_start = 0;
  movi_end = 0;
  index_offset = 0;
  index_count = 0;
  index_base = 0;
}

-- `CHUNK_HEADER_BYTES`, `LIST_TYPE_BYTES`, `INDEX_RECORD_BYTES`
abbrev pub chunk_header_bytes : ℕ
chunk_header_bytes = 8

abbrev pub list_type_bytes : ℕ
list_type_bytes = 4

abbrev pub index_record_bytes : ℕ
index_record_bytes = 16

-- the uint8_t at an index
abbrev pub byte_at : List ℕ → ℕ → ℕ
byte_at b i = get_or b i 0 % 2 ^ 8

-- `le16` and `le32` of the bytes from an index on
abbrev pub le16 : List ℕ → ℕ → ℕ
le16 b i = byte_at b i + byte_at b (i + 1) * 2 ^ 8

abbrev pub le32 : List ℕ → ℕ → ℕ
le32 b i =
    byte_at b i
    + byte_at b (i + 1) * 2 ^ 8
    + byte_at b (i + 2) * 2 ^ 16
    + byte_at b (i + 3) * 2 ^ 24

-- `memcpy(id, &b[i], 4)`
abbrev pub four_at : List ℕ → ℕ → List ℕ
four_at b i = byte_at b i ∷ byte_at b (i + 1) ∷ byte_at b (i + 2) ∷ byte_at b (i + 3) ∷ []

-- `fourcc_is`
abbrev pub fourcc_is : List ℕ → String → Bool
fourcc_is id expected = str_eq id (codes expected)

-- `read_exact`: the buffer, or `none` for `false`
unfoldable pub read_exact : Reader → ℕ → ℕ → Option (List ℕ)
read_exact read offset size =
    let buffer = read offset size in if length buffer == size then some buffer else none

-- `read_chunk_header`: the id and the size
unfoldable pub read_chunk_header : Reader → ℕ → Option (List ℕ × ℕ)
read_chunk_header read offset = elim (read_exact read offset chunk_header_bytes) [
  | none ↦ none
  | some header ↦ some (four_at header 0, le32 header 4)
]

-- `room_for_header`
unfoldable pub room_for_header : ℕ → ℕ → Bool
room_for_header offset end = ltb offset end && leb chunk_header_bytes (sub32 end offset)

-- `fourcc_is_blank`
abbrev pub fourcc_is_blank : List ℕ → Bool
fourcc_is_blank [] = true
fourcc_is_blank (c ∷ id) = (c == 0 || c == b' ') && fourcc_is_blank id

-- `set_codec`
unfoldable pub set_codec : Info → List ℕ → Info
set_codec info id = if fourcc_is_blank id then info else record info { video_codec = c_string id }

-- `codec_is`; the field is filled with zeroes behind the string
abbrev pub codec_from : List ℕ → List ℕ → Bool
codec_from codec [] = true
codec_from [] (c ∷ expected) = 0 == c && codec_from [] expected
codec_from (a ∷ codec) (c ∷ expected) = to_upper a == c && codec_from codec expected

unfoldable pub codec_is : List ℕ → String → Bool
codec_is codec expected = codec_from codec (codes expected)

-- a chunk's size as far as it fits before `end`
abbrev pub clamped : ℕ → ℕ → ℕ → ℕ
clamped size payload end = if ltb (sub32 end payload) size then sub32 end payload else size

-- `payload + size + (size & 1u)`
abbrev pub padded : ℕ → ℕ → ℕ
padded payload size = add32 (add32 payload size) (size % 2)
