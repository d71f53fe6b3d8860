-- ===== src/Media/Paths/Safe.antt =====
-- What a safe path is, and that joining a name to a folder keeps it so and can be undone.
use videoalarmclock.Platform.{ok}
use videoalarmclock.Prelude.{
  ℕ, ◌<◌, ◌≡◌, refl, ◌≢◌, true, false, ◌&&◌, List, [], ◌∷◌, ◌++◌, arith, ltb, if◌then◌else◌, length,
  subst, length-append,
}
use videoalarmclock.Prelude.Bytes.{codes}
use videoalarmclock.Media.Names.{component_is_safe, all_safe, name_is_safe_component}
use videoalarmclock.Media.Paths.{
  path_max, PathKind, file, folder, parts, all_components, path_is_safe, media_path, path_join,
  path_parent, path_name, is_empty,
}
use videoalarmclock.Media.Paths.Slash.{
  component-no_slash, parts-name, parts-append, before_last_slash-name, last_slash-append,
}

pub component_of_name : (name : List ℕ) → name_is_safe_component name ≡ component_is_safe name
unfolding name_is_safe_component component_is_safe
component_of_name name = ground arith

pub all_components-append :
    (ps qs : List (List ℕ)) → all_components (ps ++ qs) ≡ (all_components ps && all_components qs)
unfolding all_components
all_components-append [] qs = refl
all_components-append (p ∷ ps) qs = ground (arith, all_components-append ps qs)

-- A path of at least one byte is safe if it is short enough and each of its parts is.
pub path_is_safe_iff :
    (path : List ℕ) (kind : PathKind)
    → path ≢ []
    → path_is_safe path kind ≡ (ltb (length path) path_max && all_components (parts path))
unfolding path_is_safe
path_is_safe_iff [] kind h = absurd (h refl)
path_is_safe_iff (c ∷ path) kind h = ground arith

pub root_is_safe : path_is_safe [] folder ≡ true
unfolding path_is_safe
root_is_safe = refl

empty_is_no_file : path_is_safe [] file ≡ false
unfolding path_is_safe
empty_is_no_file = refl

-- what must hold of every part and of every byte of a path that stays below the card's root
pub record Inside (part : List ℕ) : Type 0 where
  pub named : part ≢ []
  pub not_here : part ≢ codes "."
  pub not_up : part ≢ codes ".."
  pub printable : all_safe part ≡ true

abbrev pub AllInside : List (List ℕ) → Type 0
AllInside [] = Unit
AllInside (p ∷ ps) = Inside p × AllInside ps

component-Inside : (p : List ℕ) → component_is_safe p ≡ true → Inside p
unfolding component_is_safe
component-Inside [] h = ground arith
component-Inside (c ∷ []) h = record {
  named = λ e. ground arith;
  not_here = λ e. ground arith;
  not_up = λ e. ground arith;
  printable = ground arith;
}
component-Inside (c ∷ d ∷ []) h = record {
  named = λ e. ground arith;
  not_here = λ e. ground arith;
  not_up = λ e. ground arith;
  printable = ground arith;
}
component-Inside (c ∷ d ∷ e ∷ p) h = record {
  named = λ e'. ground arith;
  not_here = λ e'. ground arith;
  not_up = λ e'. ground arith;
  printable = ground arith;
}

parts-AllInside : (ps : List (List ℕ)) → all_components ps ≡ true → AllInside ps
unfolding all_components
parts-AllInside [] h = tt
parts-AllInside (p ∷ ps) h = (component-Inside p (ground arith), parts-AllInside ps (ground arith))

-- A full path that is handed to the filesystem is the mount point, a slash and a path each part of
-- which is a name: none is empty, "." or "..", and no byte is a backslash or a control character.
-- It fits the buffer with its terminator.
pub media_path-Inside :
    (mount path : List ℕ) (size : ℕ) {full : List ℕ}
    → media_path mount path size ≡ ok full
    → (full ≡ mount ++ b'/' ∷ path)
      × (length full < size)
      × (length path < path_max)
      × AllInside (parts path)
unfolding media_path
media_path-Inside mount [] size e = ground (arith, empty_is_no_file)
media_path-Inside mount (c ∷ path) size {full} e =
    let safe = path_is_safe_iff (c ∷ path) file (λ h. cc) in
    let all : all_components (parts (c ∷ path)) ≡ true = ground (arith, safe) in
    (
      ground (arith, safe),
      ground (arith, safe),
      ground (arith, safe),
      parts-AllInside (parts (c ∷ path)) all,
    )

-- What a successful join says of its arguments.
path_join_ok :
    (folder_path name : List ℕ) (size : ℕ) {path : List ℕ}
    → path_join folder_path name size ≡ ok path
    → (path ≡ (if is_empty folder_path then name else folder_path ++ b'/' ∷ name))
      × (path_is_safe folder_path folder ≡ true)
      × (component_is_safe name ≡ true)
      × (length path < size)
      × (length path < path_max)
unfolding path_join
path_join_ok folder_path name size e = ground (arith, component_of_name name)

safe_name :
    (name : List ℕ) (kind : PathKind)
    → component_is_safe name ≡ true
    → length name < path_max
    → path_is_safe name kind ≡ true
unfolding all_components
safe_name [] kind h small = absurd ((component-Inside [] h).named refl)
safe_name (c ∷ name) kind h small =
    rw
      (
        path_is_safe_iff (c ∷ name) kind (λ e. cc),
        parts-name (c ∷ name) (component-no_slash (c ∷ name) h),
      )
      ground (arith, h)

-- A safe folder with a safe name behind it is safe if it is short enough.
pub safe_join :
    (f : List ℕ) (name : List ℕ) (kind : PathKind)
    → all_components (parts f) ≡ true
    → component_is_safe name ≡ true
    → length (f ++ b'/' ∷ name) < path_max
    → path_is_safe (f ++ b'/' ∷ name) kind ≡ true
unfolding all_components
safe_join f name kind hf h small =
    rw
      (
        path_is_safe_iff (f ++ b'/' ∷ name) kind (append_ne_nil f),
        parts-append f name (component-no_slash name h),
        all_components-append (parts f) (name ∷ []),
      )
      ground (arith, hf, h, small)
  where
    append_ne_nil : (f : List ℕ) → f ++ b'/' ∷ name ≢ []
    append_ne_nil [] e = cc
    append_ne_nil (c ∷ f) e = cc

-- Joining a name to a folder gives a safe path, of which the folder is the parent and the name the
-- last component.
pub path_join-parent :
    (folder_path name : List ℕ) (size : ℕ) {path : List ℕ}
    → path_join folder_path name size ≡ ok path
    → (path_is_safe path file ≡ true)
      × (path_parent path size ≡ ok folder_path)
      × (path_name path ≡ name)
      × (length path < size)
unfolding path_join path_parent path_name
path_join-parent [] name size {path} e =
    let (shape, _, named, fits, small) = path_join_ok [] name size e in
    let (none_before, none_after) = before_last_slash-name name (component-no_slash name named) in
    let safe = safe_name name folder named (subst (λ p. length p < path_max) shape small) in
    let safe' = safe_name name file named (subst (λ p. length p < path_max) shape small) in
    rw shape (safe', ground (arith, none_before, safe), rw (none_after, path_name), ground arith)
path_join-parent (c ∷ f) name size {path} e =
    let (shape, root, named, fits, small) = path_join_ok (c ∷ f) name size e in
    let (before, after) = last_slash-append (c ∷ f) name (component-no_slash name named) in
    let parts_safe : all_components (parts (c ∷ f)) ≡ true =
      ground (arith, path_is_safe_iff (c ∷ f) folder (λ e. cc)) in
    let small' = subst (λ p. length p < path_max) shape small in
    let safe = safe_join (c ∷ f) name folder parts_safe named small' in
    let safe' = safe_join (c ∷ f) name file parts_safe named small' in
    rw shape (
      safe',
      ground (arith, before, safe, length-append (c ∷ f) (b'/' ∷ name)),
      rw (after, path_name),
      ground arith,
    )
