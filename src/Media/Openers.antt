-- ===== src/Media/Openers.antt =====
-- nn20clock_media.c: the openers of a folder, the clips whose names lead with a number.
pub mod Least
pub mod Next
use videoalarmclock.Prelude.{
  ℕ, ◌+◌, ◌-◌, ◌*◌, ◌/◌, ◌^◌, Bool, true, false, ◌&&◌, not, Option, none, some, List, [], ◌∷◌, ltb,
  leb, ◌==◌, if◌then◌else◌,
}
use videoalarmclock.Media.Names.{Kind, unknown}
use videoalarmclock.Media.Paths.{path_name}
use videoalarmclock.Media.Listing.{Entry, EntryType, entry_file, entry_folder, Listing, name_after}

-- `UINT32_MAX`
abbrev pub uint32_max : ℕ
uint32_max = 2 ^ 32 - 1

abbrev pub is_digit : ℕ → Bool
is_digit c = leb b'0' c && leb c b'9'

-- the loop of `name_number`, which saturates
unfoldable pub number_on : ℕ → List ℕ → ℕ
number_on number [] = number
number_on number (c ∷ cs) =
    let digit = c - b'0' in
    let rest = number_on (number * 10 + digit) cs in
    if not (is_digit c)
    then number
    else if ltb ((uint32_max - digit) / 10) number
    then uint32_max
    else rest

-- `nn20clock_media_name_number`
unfoldable pub name_number : List ℕ → Option ℕ
unfolding number_on
name_number [] = none
name_number (c ∷ cs) = if is_digit c then some (number_on 0 (c ∷ cs)) else none

-- `compare_openers(a, b) > 0`, which is `compare_openers(b, a) < 0`
unfoldable pub opener_after : ℕ → List ℕ → ℕ → List ℕ → Bool
opener_after a_number a_name b_number b_name =
    if a_number == b_number then name_after a_name b_name else ltb b_number a_number

-- `entry->type != NN20CLOCK_MEDIA_ENTRY_FILE || entry->kind == NN20CLOCK_MEDIA_KIND_UNKNOWN`
abbrev is_clip : EntryType → Kind → Bool
is_clip entry_file unknown = false
is_clip entry_file _ = true
is_clip entry_folder _ = false

-- the number of an entry that is an opener
unfoldable pub opener_number : Entry → Option ℕ
opener_number e = if is_clip e.type e.kind then name_number e.name else none

-- what is behind the last clip, if there was one
abbrev pub is_ahead : Option (ℕ × List ℕ) → ℕ → List ℕ → Bool
is_ahead none number name = true
is_ahead (some (after_number, after_name)) number name =
    opener_after number name after_number after_name

abbrev pub nearer : ℕ → Entry → Option (ℕ × Entry) → Option (ℕ × Entry)
nearer number e none = some (number, e)
nearer number e (some (best_number, best)) =
    if opener_after best_number best.name number e.name
    then some (number, e)
    else some (best_number, best)

-- one round of the scan
unfoldable pub keep_first : Option (ℕ × List ℕ) → Entry → Option (ℕ × Entry) → Option (ℕ × Entry)
keep_first after e best = elim (opener_number e) [
  | none ↦ best
  | some number ↦ if is_ahead after number e.name then nearer number e best else best
]

unfoldable pub best_from :
    Option (ℕ × List ℕ) → Option (ℕ × Entry) → List Entry → Option (ℕ × Entry)
best_from after best [] = best
best_from after best (e ∷ entries) = best_from after (keep_first after e best) entries

-- the entry that the scan answers
abbrev pub entry_of : Option (ℕ × Entry) → Option Entry
entry_of none = none
entry_of (some (number, e)) = some e

-- `nn20clock_media_list_next_opener`; a path that is NULL is `[]`, as in the code
unfoldable pub list_next_opener : Listing → List ℕ → Option Entry
list_next_opener l [] = entry_of (best_from none none l.entries)
list_next_opener l (c ∷ cs) =
    let name = path_name (c ∷ cs) in
    elim (name_number name) [
      | none ↦ none
      | some number ↦ entry_of (best_from (some (number, name)) none l.entries)
    ]
