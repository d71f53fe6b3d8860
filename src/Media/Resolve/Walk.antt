-- ===== src/Media/Resolve/Walk.antt =====
-- The resolution of a path against a walk over folder names.
use videoalarmclock.Prelude.{
  ℕ, ◌<◌, ◌≡◌, refl, sym, ap, ◌∙◌, ◌≢◌, ◌⊎◌, inl, inr, true, ◌||◌, Option, none, some, List, [],
  ◌∷◌, ◌++◌, arith, if◌then◌else◌, Bool-cases, Option-cases, length, subst,
}
use videoalarmclock.Platform.{Result, ok, err, invalid_arg, EspErr, invalid_size}
use videoalarmclock.Media.Names.{is_dot, is_dot_dot, component_is_safe}
use videoalarmclock.Media.Paths.{
  path_max, folder, parts, all_components, path_is_safe, is_empty, before_last_slash,
}
use videoalarmclock.Media.Paths.Slash.{
  component-no_slash, parts-name, parts-append, before_last_slash-name, last_slash-append,
  slash-cases,
}
use videoalarmclock.Media.Paths.Safe.{path_is_safe_iff, root_is_safe, all_components-append}
use videoalarmclock.Media.Resolve.{
  append_component, drop_component, resolve_part, resolve_parts, path_resolve, starts_slash,
  or_empty,
}

-- The specification. A place is the list of the folder names down from the root; `none` is a
-- refusal.
abbrev pub drop_last : List (List ℕ) → Option (List (List ℕ))
drop_last [] = none
drop_last (x ∷ []) = some []
drop_last (x ∷ y ∷ xs) = elim (drop_last (y ∷ xs)) [ none ↦ none | some ys ↦ some (x ∷ ys) ]

unfoldable pub walk_part : List (List ℕ) → List ℕ → Option (List (List ℕ))
walk_part place part =
    if is_empty part || is_dot part
    then some place
    else if is_dot_dot part
    then drop_last place
    else if component_is_safe part
    then some (place ++ part ∷ [])
    else none

unfoldable pub walk : List (List ℕ) → List (List ℕ) → Option (List (List ℕ))
walk place [] = some place
walk place (part ∷ rest) = elim (walk_part place part) [
  | none ↦ none
  | some place' ↦ walk place' rest
]

-- the place that a canonical path names
unfoldable pub place_of : List ℕ → List (List ℕ)
place_of path = if is_empty path then [] else parts path

drop_last-append : (xs : List (List ℕ)) (x : List ℕ) → drop_last (xs ++ x ∷ []) ≡ some xs
drop_last-append [] x = refl
drop_last-append (y ∷ []) x = refl
drop_last-append (y ∷ z ∷ xs) x = rw (drop_last-append (z ∷ xs) x)

place_of-name : (name : List ℕ) → component_is_safe name ≡ true → place_of name ≡ name ∷ []
unfolding place_of component_is_safe
place_of-name [] h = ground arith
place_of-name (c ∷ name) h = parts-name (c ∷ name) (component-no_slash (c ∷ name) h)

place_of-append :
    (out name : List ℕ)
    → out ≢ []
    → component_is_safe name ≡ true
    → place_of (out ++ b'/' ∷ name) ≡ place_of out ++ name ∷ []
unfolding place_of
place_of-append [] name ne h = absurd (ne refl)
place_of-append (c ∷ out) name ne h = parts-append (c ∷ out) name (component-no_slash name h)

place_of_root : place_of [] ≡ []
unfolding place_of
place_of_root = refl

-- Appending a component walks into it.
append_component-place :
    (size : ℕ) (out name : List ℕ) {out' : List ℕ}
    → component_is_safe name ≡ true
    → append_component size out name ≡ some out'
    → place_of out' ≡ place_of out ++ name ∷ []
unfolding append_component
append_component-place size [] name h e = ground (arith, place_of-name name h, place_of_root)
append_component-place size (c ∷ out) name h e =
    ground (arith, place_of-append (c ∷ out) name (λ p. cc) h)

place_of_tail :
    (before name : List ℕ)
    → all_components (parts before ++ name ∷ []) ≡ true
    → place_of before ≡ parts before
unfolding place_of all_components parts component_is_safe
place_of_tail [] name h = ground arith
place_of_tail (c ∷ before) name h = refl

-- Dropping a component walks out of it, and at the root both are refused.
drop_component-place :
    (out : List ℕ)
    → all_components (place_of out) ≡ true
    → ((drop_component out ≡ none) × (drop_last (place_of out) ≡ none))
      ⊎ ((out' : List ℕ) × (drop_component out ≡ some out')
          × (drop_last (place_of out) ≡ some (place_of out')))
unfolding drop_component place_of
drop_component-place [] h = inl (refl, refl)
drop_component-place (c ∷ out) h = elim (slash-cases (c ∷ out)) [
  | inl plain ↦
      inr (
        [],
        ground (arith, before_last_slash-name (c ∷ out) plain),
        rw (parts-name (c ∷ out) plain),
      )
  | inr (before, name, e, hn) ↦
      let split : parts (c ∷ out) ≡ parts before ++ name ∷ [] =
        rw e (parts-append before name hn) in
      inr (
        before,
        ground (
          arith,
          subst (λ l. before_last_slash l ≡ some before) (sym e)
              (last_slash-append before name hn).0,
        ),
        rw split (
            drop_last-append (parts before) name
            ∙ ap some
                (sym (place_of_tail before name (subst (λ l. all_components l ≡ true) split h)))),
      )
]

-- the two sides of one step: a path goes on to a path of the place that the walk goes on to, which
-- is made of safe names; or the path is refused
data Keeps (place : Option (List (List ℕ))) : Result (List ℕ) → Type 0 where
  going :
      (out : List ℕ)
      → place ≡ some (place_of out)
      → all_components (place_of out) ≡ true
      → Keeps place (ok out)
  refused :
      (e : EspErr) → (place ≡ none) × (e ≡ invalid_arg) ⊎ (e ≡ invalid_size) → Keeps place (err e)

all_components-last :
    (ps : List (List ℕ)) (p : List ℕ)
    → all_components ps ≡ true
    → component_is_safe p ≡ true
    → all_components (ps ++ p ∷ []) ≡ true
unfolding all_components
all_components-last ps p h hp = ground (arith, all_components-append ps (p ∷ []))

all_components-drop_last :
    (ps : List (List ℕ)) {qs : List (List ℕ)}
    → all_components ps ≡ true
    → drop_last ps ≡ some qs
    → all_components qs ≡ true
unfolding all_components
all_components-drop_last [] h e = cc
all_components-drop_last (p ∷ []) h e = ground arith
all_components-drop_last (p ∷ q ∷ ps) h e = elim (Option-cases (drop_last (q ∷ ps))) [
  | inl stop ↦ ground arith
  | inr (rest, more) ↦ ground (arith, all_components-drop_last (q ∷ ps) {qs = rest})
]

resolve_part-Keeps :
    (size : ℕ) (out part : List ℕ)
    → all_components (place_of out) ≡ true
    → Keeps (walk_part (place_of out) part) (resolve_part size out part)
unfolding walk_part resolve_part
resolve_part-Keeps size out part h = elim (Bool-cases (is_empty part)) [
  | inl e ↦ rw e (going out refl h)
  | inr e ↦ rw e elim (Bool-cases (is_dot part)) [
    | inl d ↦ rw d (going out refl h)
    | inr d ↦ rw d elim (Bool-cases (is_dot_dot part)) [
      | inl u ↦ rw u elim (drop_component-place out h) [
        | inl (dropped, w) ↦ rw (dropped, w) (refused invalid_arg (inl (refl, refl)))
        | inr (out', dropped, w) ↦
            rw dropped (going out' w (all_components-drop_last (place_of out) h w))
      ]
      | inr u ↦ rw u elim (Bool-cases (component_is_safe part)) [
        | inr bad ↦ rw bad (refused invalid_arg (inl (refl, refl)))
        | inl safe ↦ rw safe elim (Option-cases (append_component size out part)) [
          | inl full ↦ rw full (refused invalid_size (inr refl))
          | inr (out', added) ↦
              let w = append_component-place size out part safe added in
              rw added (
                going out' (ap some (sym w))
                  (rw w (all_components-last (place_of out) part h safe)))
        ]
      ]
    ]
  ]
]

-- One step that keeps in touch with the walk, and then the rest of both.
Keeps-then :
    {place : Option (List (List ℕ))} {r : Result (List ℕ)}
    → Keeps place r
    → (more : List (List ℕ) → Option (List (List ℕ))) → (next : List ℕ → Result (List ℕ))
    → ((out : List ℕ)
        → all_components (place_of out) ≡ true
        → Keeps (more (place_of out)) (next out))
    → Keeps
        (elim place [ none ↦ none | some place' ↦ more place' ])
        (elim r [ ok out ↦ next out | err e ↦ err e ])
Keeps-then (going out e h) more next k = rw e (k out h)
Keeps-then (refused e (inl (p, q))) more next k = rw p (refused e (inl (refl, q)))
Keeps-then (refused e (inr p)) more next k = refused e (inr p)

resolve_parts-Keeps :
    (size : ℕ) (out : List ℕ) (ps : List (List ℕ))
    → all_components (place_of out) ≡ true
    → Keeps (walk (place_of out) ps) (resolve_parts size out ps)
unfolding walk resolve_parts
resolve_parts-Keeps size out [] h = going out refl h
resolve_parts-Keeps size out (p ∷ ps) h =
    Keeps-then (resolve_part-Keeps size out p h) (λ place. walk place ps)
      (λ out'. resolve_parts size out' ps) (λ out' h'. resolve_parts-Keeps size out' ps h')

-- where the walk begins: at the root for a path that starts with a slash, or else at the base
abbrev pub start_of : List ℕ → List ℕ → List ℕ
start_of base input = if starts_slash input then [] else base

safe_folder-place :
    (path : List ℕ) → path_is_safe path folder ≡ true → all_components (place_of path) ≡ true
unfolding place_of all_components
safe_folder-place [] h = refl
safe_folder-place (c ∷ path) h = ground (arith, path_is_safe_iff (c ∷ path) folder (λ e. cc))

place-safe_folder :
    (path : List ℕ)
    → all_components (place_of path) ≡ true
    → length path < path_max
    → path_is_safe path folder ≡ true
unfolding place_of
place-safe_folder [] h small = root_is_safe
place-safe_folder (c ∷ path) h small = ground (arith, path_is_safe_iff (c ∷ path) folder (λ e. cc))

-- What a successful resolution has gone through.
path_resolve_ok :
    (base : Option (List ℕ)) (input : List ℕ) (size : ℕ) {out : List ℕ}
    → path_resolve base input size ≡ ok out
    → (path_is_safe (or_empty base) folder ≡ true)
      × (resolve_parts size (start_of (or_empty base) input) (parts input) ≡ ok out)
      × (length out < path_max)
unfolding path_resolve
path_resolve_ok base input size e = ground arith

Keeps-ok :
    {place : Option (List (List ℕ))} {r : Result (List ℕ)} {out : List ℕ}
    → Keeps place r
    → r ≡ ok out
    → (place ≡ some (place_of out)) × (all_components (place_of out) ≡ true)
Keeps-ok {out = out'} (going out p h) e =
    let same : out ≡ out' = cc in
    (p ∙ ap (λ o. some (place_of o)) same, subst (λ o. all_components (place_of o) ≡ true) same h)
Keeps-ok (refused x p) e = absurd (cc)

start_of-place :
    (base input : List ℕ)
    → path_is_safe base folder ≡ true
    → all_components (place_of (start_of base input)) ≡ true
unfolding place_of all_components
start_of-place base input h = elim (Bool-cases (starts_slash input)) [
  | inl slash ↦ rw slash refl
  | inr plain ↦ rw plain (safe_folder-place base h)
]

-- A resolved path is safe, whatever the client sends, and names the place that the walk over its
-- parts comes to: an empty part and `.` stay, `..` goes up, a safe name goes down. So a path on
-- which the walk is refused, such as one that leads above the root, is refused.
pub path_resolve-walk :
    (base : Option (List ℕ)) (input : List ℕ) (size : ℕ) {out : List ℕ}
    → path_resolve base input size ≡ ok out
    → (path_is_safe out folder ≡ true)
      × (walk (place_of (start_of (or_empty base) input)) (parts input) ≡ some (place_of out))
path_resolve-walk base input size {out} e =
    let (safe, steps, small) = path_resolve_ok base input size e in
    let start = start_of (or_empty base) input in
    let (w, h) =
      Keeps-ok
        (resolve_parts-Keeps size start (parts input) (start_of-place (or_empty base) input safe))
        steps in
    (place-safe_folder out h small, w)

Keeps-none :
    {place : Option (List (List ℕ))} {r : Result (List ℕ)}
    → Keeps place r
    → place ≡ none
    → (r ≡ err invalid_arg) ⊎ (r ≡ err invalid_size)
Keeps-none (going out p h) e = absurd (cc)
Keeps-none (refused x (inl (p, q))) e = inl (ap err q)
Keeps-none (refused x (inr q)) e = inr (ap err q)

-- From a safe base, where the walk is refused the answer is the refusal of an unsafe path or that
-- of a long one.
pub path_resolve_refused :
    (base : Option (List ℕ)) (input : List ℕ) (size : ℕ)
    → path_is_safe (or_empty base) folder ≡ true
    → walk (place_of (start_of (or_empty base) input)) (parts input) ≡ none
    → (path_resolve base input size ≡ err invalid_arg)
      ⊎ (path_resolve base input size ≡ err invalid_size)
unfolding path_resolve
path_resolve_refused base input size safe h = ground (
  arith,
  Keeps-none
      (resolve_parts-Keeps size (start_of (or_empty base) input) (parts input)
        (start_of-place (or_empty base) input safe))
      h,
)
