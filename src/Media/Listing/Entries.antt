-- ===== src/Media/Listing/Entries.antt =====
-- What stands in a listing: safe paths of entries of its folder, at most sixty-four.
use videoalarmclock.Prelude.{
  ℕ, ◌≤◌, ◌<◌, ◌≡◌, refl, inl, inr, true, List, [], ◌∷◌, ◌++◌, arith, length, subst, length-append,
}
use videoalarmclock.Platform.{ok, Result-cases}
use videoalarmclock.Media.Paths.{file, path_max, path_is_safe, path_join, path_parent, path_name}
use videoalarmclock.Media.Paths.Safe.{path_join-parent}
use videoalarmclock.Media.Listing.{media_max, Entry, Listing, list_add_entry, list_add_file}

-- an entry of a folder
pub record Lies (folder_path : List ℕ) (e : Entry) : Type 0 where
  pub safe : path_is_safe e.path file ≡ true
  pub parent : path_parent e.path path_max ≡ ok folder_path
  pub name : path_name e.path ≡ e.name
  pub fits : length e.path < path_max

abbrev pub AllLie : List ℕ → List Entry → Type 0
AllLie folder_path [] = Unit
AllLie folder_path (e ∷ entries) = Lies folder_path e × AllLie folder_path entries

pub record IsListing (l : Listing) : Type 0 where
  pub capped : length l.entries ≤ media_max
  pub lie : AllLie l.folder_path l.entries

AllLie-append :
    (folder_path : List ℕ) (entries : List Entry) (e : Entry)
    → AllLie folder_path entries
    → Lies folder_path e
    → AllLie folder_path (entries ++ e ∷ [])
AllLie-append folder_path [] e h new = (new, tt)
AllLie-append folder_path (x ∷ entries) e h new = (h.0, AllLie-append folder_path entries e h.1 new)

-- one more entry, behind the others
pub record Added (l after : Listing) (name : List ℕ) : Type 0 where
  pub listing : IsListing after
  pub folder_kept : after.folder_path ≡ l.folder_path
  pub entry : Entry
  pub named : entry.name ≡ name
  pub behind : after.entries ≡ l.entries ++ entry ∷ []

list_add_entry-Added :
    (l : Listing) (name : List ℕ) (entry : List ℕ → Entry) {after : Listing}
    → IsListing l
    → ((path : List ℕ) → ((entry path).name ≡ name) × ((entry path).path ≡ path))
    → list_add_entry l name entry ≡ ok after
    → Added l after name
unfolding list_add_entry
list_add_entry-Added l name entry {after} is_listing fields e =
    elim (Result-cases (path_join l.folder_path name path_max)) [
      | inr (x, failed) ↦ absurd (ground arith)
      | inl (path, joined) ↦
          let room : length l.entries < media_max = ground arith in
          let made : (record l { entries = l.entries ++ entry path ∷ [] }) ≡ after = ground arith in
          let p = path_join-parent l.folder_path name path_max joined in
          let (n, w) = fields path in
          let lies : Lies l.folder_path (entry path) = record {
            safe = rw w (p.0);
            parent = rw w (p.1);
            name = rw (w, n) (p.2);
            fits = rw w (p.3);
          } in
          subst (λ u. Added l u name) made
            (record {
              listing = record {
                capped = omega (arith, room, length-append l.entries (entry path ∷ []));
                lie = AllLie-append l.folder_path l.entries (entry path) is_listing.lie lies;
              };
              folder_kept = refl;
              entry = entry path;
              named = n;
              behind = refl;
            })
    ]

-- Adding a file to a well-formed listing, if it succeeds, puts one entry of that name behind the
-- others; the listing still holds at most sixty-four entries, each with a safe path that has the
-- listing's folder as parent and the entry's name as last component.
pub list_add_file-Added :
    (l : Listing) (name : List ℕ) (size_bytes : ℕ) {after : Listing}
    → IsListing l
    → list_add_file l name size_bytes ≡ ok after
    → Added l after name
unfolding list_add_file
list_add_file-Added l name size_bytes is_listing e =
    list_add_entry-Added l name _ is_listing (λ path. (refl, refl)) e
