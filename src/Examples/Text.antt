-- ===== src/Examples/Text.antt =====
-- Names, paths and version numbers.
use videoalarmclock.Media.Names.{component_is_safe}
use videoalarmclock.Prelude.Bytes.{codes}
use videoalarmclock.Prelude.{◌<◌, ◌≡◌, refl, true, some, [], ◌∷◌, ◌++◌, arith}
use videoalarmclock.Platform.{ok}
use videoalarmclock.OtaVersion.{newer, parse_version, compare_versions}
use videoalarmclock.OtaVersion.Numbers.{parse_version-text}
use videoalarmclock.OtaVersion.Rank.{compare_versions-rank}
use videoalarmclock.Brightness.{Schedule, is_day}
use videoalarmclock.Brightness.Day.{is_day-day_hours}
use videoalarmclock.Media.Paths.{
  file, folder, path_is_safe, media_path, path_join, path_parent, path_name, all_components, parts,
  path_max,
}
use videoalarmclock.Media.Paths.Safe.{AllInside, media_path-Inside, path_join-parent}
use videoalarmclock.Media.Resolve.{path_resolve}
use videoalarmclock.Media.Resolve.Walk.{walk, place_of, start_of, path_resolve-walk}

-- from 07:00 to 22:00
abbrev evening : Schedule
evening = record {
  day_start_minutes = 420;
  night_start_minutes = 1320;
  day_percent = 80;
  night_percent = 10;
  playback_min_percent = 30;
}

is_day-day_hours_example : is_day (some evening) 1319 ≡ true
unfolding videoalarmclock.Brightness.Day.day_hours
is_day-day_hours_example = is_day-day_hours evening 1319 (omega arith) (omega arith) (omega arith)

-- "1.20.3-4"
parse_version-text_example :
    (parse_version (some (codes "1.20.3-4"))
      ≡ some (record { major = 1; minor = 20; patch = 3 }, true))
    × (parse_version (some (codes "v1.20.3-4")) ≡ parse_version (some (codes "1.20.3-4")))
parse_version-text_example =
    parse_version-text (codes "1") (codes "20") (codes "3") (codes "-4") (refl, tt)
      (refl, (refl, tt)) (refl, tt) refl (omega arith) (omega arith) (omega arith)

compare_versions-rank_example :
    compare_versions (some (codes "v1.3.0")) (some (codes "1.2.9")) ≡ newer
unfolding parse_version videoalarmclock.OtaVersion.skip_v
compare_versions-rank_example =
    compare_versions-rank (some (codes "v1.3.0")) (some (codes "1.2.9"))
      {theirs = record { major = 1; minor = 3; patch = 0 }}
      {ours = record { major = 1; minor = 2; patch = 9 }}
      (parse_version-text (codes "1") (codes "3") (codes "0") [] (refl, tt) (refl, tt) (refl, tt) tt
        (omega arith) (omega arith) (omega arith)).0
      (parse_version-text (codes "1") (codes "2") (codes "9") [] (refl, tt) (refl, tt) (refl, tt) tt
        (omega arith) (omega arith) (omega arith)).0

media_path-Inside_example :
    (codes "/sd/films/a.avi" ≡ codes "/sd" ++ b'/' ∷ codes "films/a.avi")
    × (15 < 288)
    × (11 < path_max)
    × AllInside (parts (codes "films/a.avi"))
unfolding media_path path_is_safe all_components component_is_safe parts
media_path-Inside_example =
    media_path-Inside (codes "/sd") (codes "films/a.avi") 288 {full = codes "/sd/films/a.avi"} refl

path_join-parent_example :
    (path_is_safe (codes "films/a.avi") file ≡ true)
    × (path_parent (codes "films/a.avi") 256 ≡ ok (codes "films"))
    × (path_name (codes "films/a.avi") ≡ codes "a.avi")
    × (11 < 256)
unfolding path_join path_is_safe all_components parts component_is_safe
    videoalarmclock.Media.Names.name_is_safe_component
path_join-parent_example =
    path_join-parent (codes "films") (codes "a.avi") 256 {path = codes "films/a.avi"} refl

path_resolve-walk_example :
    (path_is_safe (codes "music/b") folder ≡ true)
    × (walk
          (place_of (start_of (codes "films") (codes "../music/./b")))
          (parts (codes "../music/./b"))
        ≡ some (place_of (codes "music/b")))
unfolding path_resolve path_is_safe all_components parts component_is_safe
    videoalarmclock.Media.Resolve.resolve_parts videoalarmclock.Media.Resolve.resolve_part
    videoalarmclock.Media.Resolve.drop_component videoalarmclock.Media.Resolve.append_component
    videoalarmclock.Media.Paths.before_last_slash
path_resolve-walk_example =
    path_resolve-walk (some (codes "films")) (codes "../music/./b") 256 {out = codes "music/b"} refl
