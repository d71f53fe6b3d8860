-- ===== src/Media/Paths.antt =====
-- nn20clock_media.c: paths relative to the card's root. A buffer is given by its size; a result
-- that fits is the string written to it.
pub mod Slash
pub mod Safe
use videoalarmclock.Prelude.{
  ℕ, min, Bool, true, false, ◌&&◌, ◌||◌, not, Option, none, some, List, [], ◌∷◌, ◌++◌, leb, ◌==◌,
  if◌then◌else◌, length,
}
use videoalarmclock.Platform.{Result, ok, err, invalid_arg, invalid_size}
use videoalarmclock.Media.Names.{component_is_safe, name_is_safe_component}

-- `NN20CLOCK_MEDIA_PATH_MAX`
abbrev pub path_max : ℕ
path_max = 256

-- `NN20ClockMediaPathKind`
pub data PathKind : Type 0 where
  file folder : PathKind

abbrev pub is_folder : PathKind → Bool
is_folder file = false
is_folder folder = true

abbrev pub cons_head : ℕ → List (List ℕ) → List (List ℕ)
cons_head c [] = (c ∷ []) ∷ []
cons_head c (p ∷ ps) = (c ∷ p) ∷ ps

-- the slices that a loop over `strchr(cursor, '/')` visits
unfoldable pub parts : List ℕ → List (List ℕ)
parts [] = [] ∷ []
parts (c ∷ path) = let rest = parts path in if c == b'/' then [] ∷ rest else cons_head c rest

unfoldable pub all_components : List (List ℕ) → Bool
all_components [] = true
all_components (p ∷ ps) = component_is_safe p && all_components ps

-- `nn20clock_media_path_is_safe`
unfoldable pub path_is_safe : List ℕ → PathKind → Bool
path_is_safe path kind =
    let length' = min (length path) path_max in
    if leb path_max length'
    then false
    else if length' == 0
    then is_folder kind
    else all_components (parts path)

-- `snprintf(out, size, …)` of the string `text`, with the two refusals that follow it
abbrev pub print_into : ℕ → List ℕ → Result (List ℕ)
print_into size text = if leb size (length text) then err invalid_size else ok text

-- `nn20clock_media_path`
unfoldable pub media_path : List ℕ → List ℕ → ℕ → Result (List ℕ)
media_path mount_point relative_path size =
    if size == 0
    then err invalid_arg
    else if not (path_is_safe relative_path file)
    then err invalid_arg
    else print_into size (mount_point ++ b'/' ∷ relative_path)

abbrev pub is_empty : List ℕ → Bool
is_empty [] = true
is_empty (_ ∷ _) = false

-- `nn20clock_media_folder_path`
unfoldable pub folder_path : List ℕ → List ℕ → ℕ → Result (List ℕ)
folder_path mount_point path size =
    if size == 0
    then err invalid_arg
    else if not (path_is_safe path folder)
    then err invalid_arg
    else print_into size (if is_empty path then mount_point else mount_point ++ b'/' ∷ path)

-- `nn20clock_media_path_join`
unfoldable pub path_join : List ℕ → List ℕ → ℕ → Result (List ℕ)
path_join folder_path name size =
    let joined = if is_empty folder_path then name else folder_path ++ b'/' ∷ name in
    if size == 0
    then err invalid_arg
    else if not (path_is_safe folder_path folder) || not (name_is_safe_component name)
    then err invalid_arg
    else if leb size (length joined) || leb path_max (length joined)
    then err invalid_size
    else ok joined

abbrev pub extend_before : ℕ → Option (List ℕ) → Option (List ℕ)
extend_before c none = if c == b'/' then some [] else none
extend_before c (some before) = some (c ∷ before)

-- the text in front of `strrchr(path, '/')`; `none` if there is no slash
unfoldable pub before_last_slash : List ℕ → Option (List ℕ)
before_last_slash [] = none
before_last_slash (c ∷ path) = extend_before c (before_last_slash path)

abbrev pub keep_after : ℕ → List ℕ → Option (List ℕ) → Option (List ℕ)
keep_after c path none = if c == b'/' then some path else none
keep_after c path (some after) = some after

-- the text behind `strrchr(path, '/')`
unfoldable pub after_last_slash : List ℕ → Option (List ℕ)
after_last_slash [] = none
after_last_slash (c ∷ path) = keep_after c path (after_last_slash path)

abbrev pub parent_of : ℕ → Option (List ℕ) → Result (List ℕ)
parent_of size none = ok []
parent_of size (some before) = print_into size before

-- `nn20clock_media_path_parent`
unfoldable pub path_parent : List ℕ → ℕ → Result (List ℕ)
path_parent path size =
    if size == 0
    then err invalid_arg
    else if not (path_is_safe path folder)
    then err invalid_arg
    else parent_of size (before_last_slash path)

-- `nn20clock_media_path_name`
unfoldable pub path_name : List ℕ → List ℕ
path_name path = elim (after_last_slash path) [ none ↦ path | some after ↦ after ]
