-- ===== src/OtaVersion.antt =====
-- sources/components/nn20clock_ota/src/nn20clock_ota_version.c: reading `git describe` versions,
-- and the verdict whether an offered one is newer than the running one.
pub mod Numbers
pub mod Rank
use videoalarmclock.Prelude.{
  ℕ, ◌+◌, ◌-◌, ◌*◌, ◌%◌, ◌^◌, Option, none, some, List, [], ◌∷◌, Bool, true, false, ltb, ◌==◌, ◌||◌,
  if◌then◌else◌, ◌>>=◌, not,
}
use videoalarmclock.Prelude.Bytes.{is_digit}

-- `COMPONENT_MAX`
abbrev pub component_max : ℕ
component_max = 99999

-- `unsigned out[3]`
pub record Version : Type 0 where
  pub major : ℕ
  pub minor : ℕ
  pub patch : ℕ

-- the inner `while`: the number that the digits make, and the text behind them
unfoldable pub read_digits : ℕ → List ℕ → Option (ℕ × List ℕ)
read_digits value [] = some (value, [])
read_digits value (c ∷ text) =
    if is_digit c
    then if ltb component_max value
      then none
      else read_digits ((value * 10 + (c - b'0')) % 2 ^ 32) text
    else some (value, c ∷ text)

-- one round of the `for` up to `parsed[i] = value`
unfoldable pub read_component : List ℕ → Option (ℕ × List ℕ)
unfolding read_digits
read_component [] = none
read_component (c ∷ text) = if is_digit c then read_digits 0 (c ∷ text) else none

-- the `.` between two components
unfoldable pub read_dot : List ℕ → Option (List ℕ)
read_dot [] = none
read_dot (c ∷ text) = if c == b'.' then some text else none

-- the optional `v`
unfoldable pub skip_v : List ℕ → List ℕ
skip_v [] = []
skip_v (c ∷ text) = if c == b'v' || c == b'V' then text else c ∷ text

-- whether anything follows the patch number
abbrev pub extra : List ℕ → Bool
extra [] = false
extra (_ ∷ _) = true

-- `nn20clock_ota_parse_version`; `none` is the `false` that leaves `out` untouched
unfoldable pub parse_version : Option (List ℕ) → Option (Version × Bool)
parse_version none = none
parse_version (some text) = do
  (major, after_major) ← read_component (skip_v text)
  minor_text ← read_dot after_major
  (minor, after_minor) ← read_component minor_text
  patch_text ← read_dot after_minor
  (patch, rest) ← read_component patch_text
  some (record { major = major; minor = minor; patch = patch }, extra rest)

-- `NN20ClockOtaVersionVerdict`
pub data Verdict : Type 0 where
  not_newer newer offer_unreadable running_unreadable : Verdict

-- the loop over the three components: the first that differs decides
unfoldable pub compare_components : Version → Version → Verdict
compare_components theirs ours =
    if not (theirs.major == ours.major)
    then (if ltb ours.major theirs.major then newer else not_newer)
    else if not (theirs.minor == ours.minor)
    then (if ltb ours.minor theirs.minor then newer else not_newer)
    else if not (theirs.patch == ours.patch)
    then (if ltb ours.patch theirs.patch then newer else not_newer)
    else not_newer

-- the two early returns, and the loop
abbrev pub verdict : Option (Version × Bool) → Option (Version × Bool) → Verdict
verdict none ours = offer_unreadable
verdict (some theirs) none = running_unreadable
verdict (some theirs) (some ours) = compare_components theirs.0 ours.0

-- `nn20clock_ota_compare_versions`
unfoldable pub compare_versions : Option (List ℕ) → Option (List ℕ) → Verdict
unfolding parse_version compare_components
compare_versions offered running = verdict (parse_version offered) (parse_version running)
