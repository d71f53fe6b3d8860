-- ===== src/Avi/Parse.antt =====
-- nn20clock_avi.c: a whole file.
use videoalarmclock.Prelude.{
  ℕ, ◌+◌, ◌-◌, ◌*◌, ◌/◌, ◌^◌, Bool, true, false, ◌&&◌, ◌||◌, not, none, some, List, ltb, leb, ◌==◌,
  if◌then◌else◌,
}
use videoalarmclock.Avi.{
  Reader, Info, no_info, chunk_header_bytes, le32, four_at, fourcc_is, read_exact, codec_is,
}
use videoalarmclock.Avi.Headers.{Walk, ended, parse_chunks, resume}
use videoalarmclock.Avi.Index.{resolve_index_base}
use videoalarmclock.Platform.{esp_ok, invalid_arg, not_found, not_supported}

-- `FALLBACK_FPS`
abbrev pub fallback_fps : ℕ
fallback_fps = 15

-- `NN20CLOCK_AVI_FORMAT_PCM`
abbrev pub format_pcm : ℕ
format_pcm = 1

-- `nn20clock_avi_is_playable`
unfoldable pub is_playable : Info → Bool
is_playable info =
    if (info.width == 0) || (info.height == 0)
    then false
    else if not (codec_is info.video_codec "MJPG") && not (codec_is info.video_codec "JPEG")
    then false
    else if info.audio_sample_rate == 0
    then true
    else (info.audio_format == format_pcm)
      && (info.audio_bits == 16)
      && leb 1 info.audio_channels
      && leb info.audio_channels 2

-- where the walk ends: the size of the file, or else what its first chunk claims
abbrev pub end_of : ℕ → List ℕ → ℕ
end_of file_size header =
    if file_size == 0
    then if ltb (2 ^ 32 - 1 - chunk_header_bytes) (le32 header 4)
      then 2 ^ 32 - 1
      else le32 header 4 + chunk_header_bytes
    else file_size

-- the numbers that a file may leave out, or have wrong
abbrev pub with_rate : Info → Info
with_rate info =
    if (info.video_rate == 0) || (info.video_scale == 0)
    then record info { video_rate = fallback_fps; video_scale = 1 }
    else info

abbrev pub with_movi_end : ℕ → Info → Info
with_movi_end end info =
    if leb info.movi_end info.movi_start || ltb end info.movi_end
    then record info { movi_end = end }
    else info

-- what `nn20clock_avi_parse` does behind the walk
unfoldable pub parsed : Reader → ℕ → Info → Walk
parsed read end info =
    if info.movi_start == 0
    then ended info not_found
    else let resolved = resolve_index_base read (with_movi_end end (with_rate info)) in
      if is_playable resolved then ended resolved esp_ok else ended resolved not_supported

-- `nn20clock_avi_parse`
unfoldable pub parse : ℕ → Reader → ℕ → Walk
unfolding parse_chunks
parse fuel read file_size = elim (read_exact read 0 12) [
  | none ↦ ended no_info invalid_arg
  | some header ↦
      if not (fourcc_is (four_at header 0) "RIFF") || not (fourcc_is (four_at header 8) "AVI ")
      then ended no_info invalid_arg
      else let end = end_of file_size header in
        if leb end 12
        then ended no_info not_found
        else resume (parse_chunks fuel read 12 end no_info) (parsed read end)
]

-- `nn20clock_avi_frame_interval_us`
unfoldable pub frame_interval_us : Info → ℕ
frame_interval_us info =
    let fallback = 1000000 / fallback_fps in
    if (info.video_rate == 0) || (info.video_scale == 0)
    then fallback
    else let us = info.video_scale * 1000000 / info.video_rate in
      if ltb us 1000 || ltb 1000000 us then fallback else us
