-- ===== src/Examples/Film.antt =====
-- Films of a few bytes.
use videoalarmclock.Prelude.{
  ℕ, ◌-◌, ◌/◌, ◌%◌, ◌^◌, ◌≤◌, ◌≡◌, refl, ◌≢◌, List, [], ◌∷◌, ◌++◌, arith, length,
}
use videoalarmclock.Prelude.Bytes.{codes}
use videoalarmclock.Avi.{Reader, Info, no_info, read_exact}
use videoalarmclock.Avi.Headers.{ended, out_of_fuel}
use videoalarmclock.Avi.Parse.{parse}
use videoalarmclock.Avi.Film.{Film, parse-ends, parse-Film}
use videoalarmclock.Avi.Wrap.{largest, parse-stuck}
use videoalarmclock.Avi.Frames.{next_chunk}
use videoalarmclock.Avi.Playing.{Plays, next_chunk-Plays}
use videoalarmclock.Avi.Index.{seek, first_record, resolve_index_base}
use videoalarmclock.Avi.Landing.{Sought, seek-Sought}
use videoalarmclock.Avi.Position.{frame_interval_us_bounds}
use videoalarmclock.Avi.Parse.{frame_interval_us}
use Prim.Native.String.{String}
use videoalarmclock.Prelude.{take, drop}
use videoalarmclock.Platform.{esp_ok}

abbrev word : ℕ → List ℕ
word n = n % 2 ^ 8 ∷ n / 2 ^ 8 % 2 ^ 8 ∷ n / 2 ^ 16 % 2 ^ 8 ∷ n / 2 ^ 24 ∷ []

abbrev tagged : String → List ℕ → List ℕ
tagged id payload = codes id ++ word (length payload) ++ payload

abbrev zeroes : List ℕ
zeroes = 0 ∷ 0 ∷ 0 ∷ 0 ∷ []

-- a film of 136 bytes: a stream of 320 by 240 at 25 frames a second, one frame and an index
abbrev film : List ℕ
film =
    codes "RIFF"
    ++ word 128
    ++ codes "AVI "
    ++ tagged "LIST" (
        codes "strl"
        ++ tagged "strh"
            (codes "vids" ++ codes "MJPG" ++ zeroes ++ zeroes ++ zeroes ++ word 1 ++ word 25)
        ++ tagged "strf" (zeroes ++ word 320 ++ word 240 ++ zeroes ++ codes "MJPG"))
    ++ tagged "LIST" (codes "movi" ++ tagged "00dc" zeroes)
    ++ tagged "idx1" (codes "00dc" ++ zeroes ++ word 4 ++ word 4)

abbrev stored : List ℕ → Reader
stored bytes offset size = take size (drop offset bytes)

abbrev film_info : Info
film_info = record no_info {
  width = 320;
  height = 240;
  video_rate = 25;
  video_scale = 1;
  video_codec = codes "MJPG";
  movi_start = 100;
  movi_end = 112;
  index_offset = 120;
  index_count = 1;
  index_base = 96;
}

film-parsed : parse 137 (stored film) 136 ≡ ended film_info esp_ok
unfolding parse read_exact videoalarmclock.Avi.room_for_header videoalarmclock.Avi.read_chunk_header
    videoalarmclock.Avi.Headers.found videoalarmclock.Avi.Headers.parse_stream_list
    videoalarmclock.Avi.Headers.stream_chunk videoalarmclock.Avi.Parse.parsed
    videoalarmclock.Avi.Parse.is_playable resolve_index_base videoalarmclock.Avi.set_codec
    videoalarmclock.Avi.Index.read_index_record videoalarmclock.Avi.Index.base_agrees
    videoalarmclock.Avi.codec_is
film-parsed = refl

parse-ends_example : parse 137 (stored film) 136 ≢ out_of_fuel
parse-ends_example =
    parse-ends 137 (stored film) 136 136 (λ header e. refl) (omega arith) (omega arith)

parse-Film_example : Film 136 film_info
parse-Film_example =
    parse-Film 137 (stored film) 136 136 (λ header e. refl) (omega arith) (omega arith) film_info
      film-parsed

next_chunk-Plays_example : Plays film_info 100 (next_chunk 17 (stored film) film_info 100)
next_chunk-Plays_example =
    next_chunk-Plays 17 (stored film) film_info 100 (omega arith) (omega arith) (omega arith)
      (omega arith)

seek-Sought_example :
    Sought (stored film) film_info (first_record film_info 500) (seek (stored film) film_info 500)
seek-Sought_example = seek-Sought (stored film) film_info 500 refl (omega arith)

-- the film's description before the index is looked at
abbrev unresolved : Info
unresolved = record film_info { index_base = 0 }

frame_interval_us_bounds_example :
    (1000 ≤ frame_interval_us film_info) × (frame_interval_us film_info ≤ 1000000)
frame_interval_us_bounds_example = frame_interval_us_bounds film_info

-- a file that says at every offset that the rest of it is one chunk
abbrev endless_header : List ℕ
endless_header = codes "RIFF" ++ word (2 ^ 32 - 1) ++ codes "AVI "

abbrev endless : Reader
endless offset size = take size endless_header

parse-stuck_example : parse 5 endless largest ≡ out_of_fuel
unfolding read_exact videoalarmclock.Avi.read_chunk_header
parse-stuck_example =
    parse-stuck endless endless_header (2 ^ 32 - 1) (codes "RIFF") (2 ^ 32 - 1) refl refl refl refl
      (omega arith) refl refl refl (omega arith) 5
