-- ===== src/Media/Resolve.antt =====
-- nn20clock_media.c: what a client's path means, given the folder that it stands in.
pub mod Walk
use videoalarmclock.Prelude.{
  ℕ, ◌+◌, ◌*◌, min, Bool, false, not, Option, none, some, List, [], ◌∷◌, ◌++◌, ltb, leb, ◌==◌,
  if◌then◌else◌, length,
}
use videoalarmclock.Platform.{Result, ok, err, invalid_arg, invalid_size, EspErr}
use videoalarmclock.Media.Names.{is_dot, is_dot_dot, component_is_safe}
use videoalarmclock.Media.Paths.{path_max, folder, parts, path_is_safe, is_empty, before_last_slash}

-- `append_component`; `out` is the path built so far, and `used` its length
unfoldable pub append_component : ℕ → List ℕ → List ℕ → Option (List ℕ)
append_component size out name =
    let separator : ℕ = if ltb 0 (length out) then 1 else 0 in
    if ltb size (length out + separator + length name + 1)
    then none
    else some (if ltb 0 (length out) then out ++ b'/' ∷ name else name)

abbrev pub or_empty : Option (List ℕ) → List ℕ
or_empty none = []
or_empty (some before) = before

-- `drop_component`
unfoldable pub drop_component : List ℕ → Option (List ℕ)
drop_component out = if length out == 0 then none else some (or_empty (before_last_slash out))

abbrev pub or_error : Option (List ℕ) → EspErr → Result (List ℕ)
or_error none e = err e
or_error (some out) e = ok out

-- one round of the loop: an empty part is a slash that the inner loop skips
unfoldable pub resolve_part : ℕ → List ℕ → List ℕ → Result (List ℕ)
resolve_part size out part =
    if is_empty part
    then ok out
    else if is_dot part
    then ok out
    else if is_dot_dot part
    then or_error (drop_component out) invalid_arg
    else if not (component_is_safe part)
    then err invalid_arg
    else or_error (append_component size out part) invalid_size

-- the loop over the client's path
unfoldable pub resolve_parts : ℕ → List ℕ → List (List ℕ) → Result (List ℕ)
resolve_parts size out [] = ok out
resolve_parts size out (part ∷ rest) = elim (resolve_part size out part) [
  | ok out' ↦ resolve_parts size out' rest
  | err e ↦ err e
]

abbrev pub starts_slash : List ℕ → Bool
starts_slash [] = false
starts_slash (c ∷ _) = c == b'/'

-- the check of the length behind the loop
abbrev pub cap_length : Result (List ℕ) → Result (List ℕ)
cap_length (err e) = err e
cap_length (ok out) = if leb path_max (length out) then err invalid_size else ok out

-- `nn20clock_media_path_resolve`; a NULL base folder is the root
unfoldable pub path_resolve : Option (List ℕ) → List ℕ → ℕ → Result (List ℕ)
path_resolve base_folder input size =
    let base = or_empty base_folder in
    if size == 0
    then err invalid_arg
    else if not (path_is_safe base folder)
    then err invalid_arg
    else if leb (path_max * 2) (min (length input) (path_max * 2))
    then err invalid_size
    else if starts_slash input
    then cap_length (resolve_parts size [] (parts input))
    else if ltb size (length base + 1)
    then err invalid_size
    else cap_length (resolve_parts size base (parts input))
