-- ===== src/Media/Listing/Sorted.antt =====
-- The sort of a listing: in order, and the same entries.
use videoalarmclock.Prelude.{
  ℕ, ◌+◌, ◌≡◌, refl, inl, inr, Bool, true, false, List, [], ◌∷◌, arith, ltb, if◌then◌else◌,
  Bool-cases, length,
}
use videoalarmclock.Media.Listing.{
  Entry, EntryType, entry_file, entry_folder, Listing, name_after, entry_after, shift_in, unwind,
  sort_from, list_sort, type_after,
}

name_after-total : (a b : List ℕ) → name_after a b ≡ true → name_after b a ≡ false
unfolding name_after
name_after-total [] b h = absurd (cc)
name_after-total (x ∷ a) [] h = refl
name_after-total (x ∷ a) (y ∷ b) h = ground (arith, name_after-total a b)

type_after-total :
    (s t : EntryType) (x y : Bool)
    → (x ≡ true → y ≡ false)
    → type_after s t x ≡ true
    → type_after t s y ≡ false
type_after-total entry_file entry_file x y h e = h e
type_after-total entry_file entry_folder x y h e = refl
type_after-total entry_folder entry_file x y h e = absurd (cc)
type_after-total entry_folder entry_folder x y h e = h e

entry_after-total : (a b : Entry) → entry_after a b ≡ true → entry_after b a ≡ false
unfolding entry_after
entry_after-total a b =
    type_after-total a.type b.type (name_after a.name b.name) (name_after b.name a.name)
      (name_after-total a.name b.name)

-- the first entry of a list does not come after `e`, or not before it
abbrev NotAfter : List Entry → Entry → Type 0
NotAfter [] e = Unit
NotAfter (x ∷ l) e = entry_after x e ≡ false

abbrev NotBefore : Entry → List Entry → Type 0
NotBefore e [] = Unit
NotBefore e (x ∷ l) = entry_after e x ≡ false

-- no entry comes after the next one
abbrev pub InOrder : List Entry → Type 0
InOrder [] = Unit
InOrder (x ∷ []) = Unit
InOrder (x ∷ y ∷ l) = (entry_after x y ≡ false) × InOrder (y ∷ l)

abbrev Reversed : List Entry → Type 0
Reversed [] = Unit
Reversed (x ∷ l) = NotAfter l x × Reversed l

InOrder-cons : (e : Entry) (l : List Entry) → NotBefore e l → InOrder l → InOrder (e ∷ l)
InOrder-cons e [] h o = tt
InOrder-cons e (x ∷ l) h o = (h, o)

shift_in-NotAfter :
    (key e : Entry) (before : List Entry)
    → entry_after key e ≡ false
    → NotAfter before e
    → NotAfter (shift_in key before) e
unfolding shift_in
shift_in-NotAfter key e [] h n = h
shift_in-NotAfter key e (x ∷ before) h n = elim (Bool-cases (entry_after x key)) [
  | inl after ↦ rw after n
  | inr fits ↦ rw fits h
]

shift_in-Reversed :
    (key : Entry) (before : List Entry) → Reversed before → Reversed (shift_in key before)
unfolding shift_in
shift_in-Reversed key [] r = (tt, tt)
shift_in-Reversed key (x ∷ before) r = elim (Bool-cases (entry_after x key)) [
  | inl after ↦ rw after (
    shift_in-NotAfter key x before (entry_after-total x key after) r.0,
    shift_in-Reversed key before r.1,
  )
  | inr fits ↦ rw fits (fits, r)
]

abbrev Joined : List Entry → List Entry → Type 0
Joined [] after = Unit
Joined (e ∷ before) after = NotBefore e after

unwind-InOrder :
    (before after : List Entry)
    → Reversed before
    → Joined before after
    → InOrder after
    → InOrder (unwind before after)
unwind-InOrder [] after r j o = o
unwind-InOrder (e ∷ before) after r j o =
    unwind-InOrder before (e ∷ after) r.1 (joined before r.0) (InOrder-cons e after j o)
  where
    joined : (before : List Entry) → NotAfter before e → Joined before (e ∷ after)
    joined [] n = tt
    joined (x ∷ before) n = n

Joined-nil : (before : List Entry) → Joined before []
Joined-nil [] = tt
Joined-nil (e ∷ before) = tt

sort_from-InOrder : (before l : List Entry) → Reversed before → InOrder (sort_from before l)
unfolding sort_from
sort_from-InOrder before [] r = unwind-InOrder before [] r (Joined-nil before) tt
sort_from-InOrder before (key ∷ l) r =
    sort_from-InOrder (shift_in key before) l (shift_in-Reversed key before r)

-- how many entries pass a test
abbrev pub number : (Entry → Bool) → List Entry → ℕ
number test [] = 0
number test (e ∷ l) = (if test e then 1 else 0) + number test l

number-unwind :
    (test : Entry → Bool) (before after : List Entry)
    → number test (unwind before after) ≡ number test before + number test after
number-unwind test [] after = omega arith
number-unwind test (e ∷ before) after = omega (arith, number-unwind test before (e ∷ after))

number-shift_in :
    (test : Entry → Bool) (key : Entry) (before : List Entry)
    → number test (shift_in key before) ≡ (if test key then 1 else 0) + number test before
unfolding shift_in
number-shift_in test key [] = refl
number-shift_in test key (e ∷ before) = elim (Bool-cases (entry_after e key)) [
  | inl after ↦ rw after (omega (arith, number-shift_in test key before))
  | inr fits ↦ rw fits refl
]

number-sort_from :
    (test : Entry → Bool) (before l : List Entry)
    → number test (sort_from before l) ≡ number test before + number test l
unfolding sort_from
number-sort_from test before [] = number-unwind test before []
number-sort_from test before (key ∷ l) =
    omega (arith, number-sort_from test (shift_in key before) l, number-shift_in test key before)

-- The sort leaves no entry after the next one in the order of folders before files and then names
-- without regard to case, and it keeps the entries: any test is passed by as many as before. The
-- folder and the count of those skipped stay.
pub list_sort-InOrder :
    (l : Listing)
    → InOrder (list_sort l).entries
      × ((test : Entry → Bool) → number test (list_sort l).entries ≡ number test l.entries)
      × ((list_sort l).folder_path ≡ l.folder_path)
      × ((list_sort l).skipped ≡ l.skipped)
unfolding list_sort
list_sort-InOrder l = elim (Bool-cases (ltb (length l.entries) 2)) [
  | inl few ↦ rw few (short l.entries few, λ test. refl, refl, refl)
  | inr many ↦ rw many (
    sort_from-InOrder [] l.entries tt,
    λ test. omega (arith, number-sort_from test [] l.entries),
    refl,
    refl,
  )
]
  where
    short : (l : List Entry) → ltb (length l) 2 ≡ true → InOrder l
    short [] h = tt
    short (x ∷ []) h = tt
    short (x ∷ y ∷ l) h = absurd (ground arith)
