-- ===== src/Media/Paths/Slash.antt =====
-- Slashes: how the splitting of a path, its last slash and a joined name fit together.
use videoalarmclock.Prelude.{
  ℕ, ◌≡◌, refl, ap, ◌≢◌, ◌⊎◌, inl, inr, Bool, true, ◌&&◌, not, none, some, List, [], ◌∷◌, ◌++◌,
  arith, ◌==◌, Bool-cases, ==_iff,
}
use videoalarmclock.Media.Names.{component_is_safe, all_safe}
use videoalarmclock.Media.Paths.{cons_head, parts, before_last_slash, after_last_slash}

abbrev pub no_slash : List ℕ → Bool
no_slash [] = true
no_slash (c ∷ name) = not (c == b'/') && no_slash name

no_slash_of_safe : (name : List ℕ) → all_safe name ≡ true → no_slash name ≡ true
no_slash_of_safe [] h = refl
no_slash_of_safe (c ∷ name) h = ground (arith, no_slash_of_safe name)

pub component-no_slash : (name : List ℕ) → component_is_safe name ≡ true → no_slash name ≡ true
unfolding component_is_safe
component-no_slash name h = no_slash_of_safe name (ground arith)

-- One name is its own only part.
pub parts-name : (name : List ℕ) → no_slash name ≡ true → parts name ≡ name ∷ []
unfolding parts
parts-name [] h = refl
parts-name (c ∷ name) h = ground (arith, parts-name name)

cons_head-append :
    (c : ℕ) (ps qs : List (List ℕ)) → ps ≢ [] → cons_head c (ps ++ qs) ≡ cons_head c ps ++ qs
cons_head-append c [] qs h = absurd (h refl)
cons_head-append c (p ∷ ps) qs h = refl

pub parts-ne-nil : (path : List ℕ) → parts path ≢ []
unfolding parts
parts-ne-nil [] h = cc
parts-ne-nil (c ∷ path) h = ground (arith, cons_head_ne_nil c (parts path))
  where
    cons_head_ne_nil : (c : ℕ) (ps : List (List ℕ)) → cons_head c ps ≢ []
    cons_head_ne_nil c [] h = cc
    cons_head_ne_nil c (p ∷ ps) h = cc

-- A name joined behind a slash is the last part.
pub parts-append :
    (path name : List ℕ)
    → no_slash name ≡ true
    → parts (path ++ b'/' ∷ name) ≡ parts path ++ name ∷ []
unfolding parts
parts-append [] name h = ground (arith, parts-name name h)
parts-append (c ∷ path) name h = ground (
  arith,
  parts-append path name h,
  cons_head-append c (parts path) (name ∷ []) (parts-ne-nil path),
)

pub before_last_slash-name :
    (name : List ℕ)
    → no_slash name ≡ true
    → (before_last_slash name ≡ none) × (after_last_slash name ≡ none)
unfolding before_last_slash after_last_slash
before_last_slash-name [] h = (refl, refl)
before_last_slash-name (c ∷ name) h = ground (arith, before_last_slash-name name)

-- What stands before and behind the last slash of a joined path.
pub last_slash-append :
    (path name : List ℕ)
    → no_slash name ≡ true
    → (before_last_slash (path ++ b'/' ∷ name) ≡ some path)
      × (after_last_slash (path ++ b'/' ∷ name) ≡ some name)
unfolding before_last_slash after_last_slash
last_slash-append [] name h = ground (arith, before_last_slash-name name h)
last_slash-append (c ∷ path) name h = ground (arith, last_slash-append path name h)

-- A text with a slash is something, its last slash, and a name.
abbrev pub Split : List ℕ → Type 0
Split path =
    (before : List ℕ) × (name : List ℕ) × (path ≡ before ++ b'/' ∷ name) × (no_slash name ≡ true)

pub slash-cases : (path : List ℕ) → (no_slash path ≡ true) ⊎ Split path
slash-cases [] = inl refl
slash-cases (c ∷ path) = elim (slash-cases path) [
  | inr (before, name, e, h) ↦ inr (c ∷ before, name, ap (λ l. c ∷ l) e, h)
  | inl plain ↦ elim (Bool-cases (c == b'/')) [
    | inl slash ↦ inr ([], path, ap (λ (d : ℕ). d ∷ path) ((==_iff c b'/').0 slash), plain)
    | inr other ↦ inl (rw (other, plain))
  ]
]
