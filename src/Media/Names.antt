-- ===== src/Media/Names.antt =====
-- nn20clock_media.c: what a file is by its name, and which names are safe.
use Prim.Native.String.{String}
use videoalarmclock.Prelude.{
  ℕ, ◌-◌, min, Bool, true, false, ◌&&◌, ◌||◌, not, List, [], ◌∷◌, ltb, leb, ◌==◌, if◌then◌else◌,
  length, drop,
}
use videoalarmclock.Prelude.Bytes.{codes, to_lower, to_upper}

-- `NN20CLOCK_MEDIA_NAME_MAX`
abbrev pub name_max : ℕ
name_max = 256

-- `NN20ClockMediaKind`
pub data Kind : Type 0 where
  unknown video audio : Kind

-- `nn20clock_media_kind_name`
abbrev kind_name : Kind → String
kind_name video = "video"
kind_name audio = "audio"
kind_name unknown = "other"

-- the loop of `ends_with`
abbrev pub same_folded : List ℕ → List ℕ → Bool
same_folded _ [] = true
same_folded [] (b ∷ suffix) = false
same_folded (a ∷ tail) (b ∷ suffix) = to_lower a == to_lower b && same_folded tail suffix

-- `ends_with`
unfoldable pub ends_with : List ℕ → List ℕ → Bool
ends_with name suffix =
    if ltb (length name) (length suffix)
    then false
    else same_folded (drop (length name - length suffix) name) suffix

-- `nn20clock_media_kind`
unfoldable pub kind_of : List ℕ → Kind
unfolding ends_with
kind_of name =
    if ends_with name (codes ".avi")
    then video
    else if ends_with name (codes ".wav")
    then audio
    else unknown

-- `HOUSEKEEPING_NAMES`
abbrev pub housekeeping_names : List (List ℕ)
housekeeping_names =
    codes "TRASH-~1"
    ∷ codes "TRASH-~2"
    ∷ codes "TRASH-~3"
    ∷ codes "SYSTEM~1"
    ∷ codes "RECYCL~1"
    ∷ codes "$RECYCLE.BIN"
    ∷ codes "FSEVEN~1"
    ∷ codes "SPOTLI~1"
    ∷ codes "TRASHE~1"
    ∷ codes ".DS_STORE"
    ∷ []

-- the inner loop of `nn20clock_media_name_is_housekeeping`, up to the terminators
abbrev pub same_upper : List ℕ → List ℕ → Bool
same_upper [] [] = true
same_upper [] (k ∷ known) = false
same_upper (c ∷ name) [] = false
same_upper (c ∷ name) (k ∷ known) = to_upper c == k && same_upper name known

abbrev pub any_known : List ℕ → List (List ℕ) → Bool
any_known name [] = false
any_known name (known ∷ rest) = same_upper name known || any_known name rest

-- `nn20clock_media_name_is_housekeeping`
unfoldable pub name_is_housekeeping : List ℕ → Bool
name_is_housekeeping name = any_known name housekeeping_names

-- what the loop of `component_is_safe` lets through
abbrev pub char_is_safe : ℕ → Bool
char_is_safe c = not (c == b'/' || c == 0x5C) && not (ltb c 0x20 || c == 0x7F)

abbrev pub all_safe : List ℕ → Bool
all_safe [] = true
all_safe (c ∷ name) = char_is_safe c && all_safe name

abbrev pub is_dot : List ℕ → Bool
is_dot (c ∷ []) = c == b'.'
is_dot _ = false

abbrev pub is_dot_dot : List ℕ → Bool
is_dot_dot (c ∷ d ∷ []) = c == b'.' && d == b'.'
is_dot_dot _ = false

-- `component_is_safe`
unfoldable pub component_is_safe : List ℕ → Bool
component_is_safe name =
    if length name == 0
    then false
    else if leb name_max (length name)
    then false
    else if is_dot name
    then false
    else if is_dot_dot name
    then false
    else all_safe name

-- `nn20clock_media_name_is_safe_component`
unfoldable pub name_is_safe_component : List ℕ → Bool
unfolding component_is_safe
name_is_safe_component name =
    if leb name_max (min (length name) name_max) then false else component_is_safe name
