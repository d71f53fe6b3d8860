-- ===== src/Media/Openers/Next.antt =====
-- `nn20clock_media_list_next_opener` over a whole listing.
use videoalarmclock.Prelude.{ℕ, ◌≡◌, refl, ◌⊎◌, inl, inr, Option, none, some, List, [], ◌∷◌}
use videoalarmclock.Media.Paths.{path_name}
use videoalarmclock.Media.Listing.{Entry, Listing}
use videoalarmclock.Media.Openers.{name_number, best_from, entry_of, list_next_opener}
use videoalarmclock.Media.Openers.Least.{Among, First, First-iff, best_from-First}

-- What a run goes on from: nothing, if no clip has been played, or the number and the name of the
-- last clip. There is no run behind a clip that is no opener.
abbrev pub run_of : List ℕ → Option (Option (ℕ × List ℕ))
run_of [] = some none
run_of (c ∷ cs) = elim (name_number (path_name (c ∷ cs))) [
  | none ↦ none
  | some number ↦ some (some (number, path_name (c ∷ cs)))
]

-- an opener of the folder that is ahead, none that is ahead being before it; or that none is ahead
abbrev pub NextOf : Option (ℕ × List ℕ) → List Entry → Option Entry → Type 0
NextOf after entries none = First after (λ x. Among x entries) none
NextOf after entries (some e) = (n : ℕ) × First after (λ x. Among x entries) (some (n, e))

abbrev pub NextOpener : Option (Option (ℕ × List ℕ)) → List Entry → Option Entry → Type 0
NextOpener none entries e = e ≡ none
NextOpener (some after) entries e = NextOf after entries e

entry_of-NextOf :
    (after : Option (ℕ × List ℕ)) (entries : List Entry) (best : Option (ℕ × Entry))
    → First after (λ x. Among x entries) best
    → NextOf after entries (entry_of best)
entry_of-NextOf after entries none f = f
entry_of-NextOf after entries (some (n, e)) f = (n, f)

best_from-NextOf :
    (after : Option (ℕ × List ℕ)) (entries : List Entry)
    → NextOf after entries (entry_of (best_from after none entries))
best_from-NextOf after entries = entry_of-NextOf after entries (best_from after none entries) (
    First-iff after (λ x. ⊥ ⊎ Among x entries) (λ x. Among x entries) (best_from after none entries)
      drop (λ x a. inr a) (best_from-First after (λ x. ⊥) none entries (λ n x never a. never)))
  where
    drop : (x : Entry) → (⊥ ⊎ Among x entries) → Among x entries
    drop x (inl never) = absurd never
    drop x (inr a) = a

-- The next opener of a folder is one of its clips that lead with a number; it is behind the last
-- clip, by number and then by name, and no such clip is nearer to the last one. No entry is answered
-- if the last clip was no opener, or if no opener is left behind it.
pub list_next_opener-NextOpener :
    (l : Listing) (after_path : List ℕ)
    → NextOpener (run_of after_path) l.entries (list_next_opener l after_path)
unfolding list_next_opener
list_next_opener-NextOpener l [] = best_from-NextOf none l.entries
list_next_opener-NextOpener l (c ∷ cs) = go (name_number (path_name (c ∷ cs)))
  where
    name : List ℕ
    name = path_name (c ∷ cs)

    go :
        (o : Option ℕ)
        → NextOpener
            (elim o [ none ↦ none | some number ↦ some (some (number, name)) ])
            l.entries
            (elim o [
              | none ↦ none
              | some number ↦ entry_of (best_from (some (number, name)) none l.entries)
            ])
    go none = refl
    go (some number) = best_from-NextOf (some (number, name)) l.entries
