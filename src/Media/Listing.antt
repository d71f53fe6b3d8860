-- ===== src/Media/Listing.antt =====
-- nn20clock_media.c: the listing of one folder. The entries are those below `count`; what the array
-- holds past them is never read.
pub mod Sorted
pub mod Entries
use videoalarmclock.Prelude.{
  ℕ, ◌+◌, Bool, true, false, not, List, [], ◌∷◌, ◌++◌, ltb, leb, ◌==◌, if◌then◌else◌, length,
}
use videoalarmclock.Prelude.Bytes.{to_lower}
use videoalarmclock.Platform.{Result, ok, err, invalid_arg, no_mem}
use videoalarmclock.Media.Names.{Kind, unknown, kind_of, name_is_safe_component}
use videoalarmclock.Media.Paths.{folder, path_max, path_is_safe, path_join}

-- `NN20CLOCK_MEDIA_MAX`
abbrev pub media_max : ℕ
media_max = 64

-- `NN20ClockMediaEntryType`
pub data EntryType : Type 0 where
  entry_file entry_folder : EntryType

-- `NN20ClockMediaEntry`
pub record Entry : Type 0 where
  pub name : List ℕ
  pub path : List ℕ
  pub size_bytes : ℕ
  pub kind : Kind
  pub type : EntryType

-- `NN20ClockMediaList`
pub record Listing : Type 0 where
  pub folder_path : List ℕ
  pub entries : List Entry
  pub skipped : ℕ

-- `nn20clock_media_list_init`
unfoldable pub list_init : List ℕ → Result Listing
list_init folder_path =
    if path_is_safe folder_path folder
    then ok (record { folder_path = folder_path; entries = []; skipped = 0 })
    else err invalid_arg

-- `list_add` once the path is joined, with what the two callers write into the entry
abbrev pub commit : Listing → (List ℕ → Entry) → Result (List ℕ) → Result Listing
commit l entry (ok path) = ok (record l { entries = l.entries ++ entry path ∷ [] })
commit l entry (err e) = err invalid_arg

-- `list_add`
unfoldable pub list_add_entry : Listing → List ℕ → (List ℕ → Entry) → Result Listing
list_add_entry l name entry =
    if not (name_is_safe_component name)
    then err invalid_arg
    else if leb media_max (length l.entries)
    then err no_mem
    else commit l entry (path_join l.folder_path name path_max)

-- `nn20clock_media_list_add_file`
unfoldable pub list_add_file : Listing → List ℕ → ℕ → Result Listing
unfolding list_add_entry
list_add_file l name size_bytes = list_add_entry l name (λ path. record {
  name = name;
  path = path;
  size_bytes = size_bytes;
  kind = kind_of name;
  type = entry_file;
})

-- `nn20clock_media_list_add_folder`
unfoldable pub list_add_folder : Listing → List ℕ → Result Listing
unfolding list_add_entry
list_add_folder l name = list_add_entry l name (λ path. record {
  name = name;
  path = path;
  size_bytes = 0;
  kind = unknown;
  type = entry_folder;
})

-- `compare_names(a, b) > 0`; the terminator is below every byte of a name
unfoldable pub name_after : List ℕ → List ℕ → Bool
name_after [] b = false
name_after (x ∷ a) [] = true
name_after (x ∷ a) (y ∷ b) =
    let rest = name_after a b in
    if to_lower x == to_lower y then rest else ltb (to_lower y) (to_lower x)

-- `compare_entries(a, b) > 0`: folders before files
abbrev pub type_after : EntryType → EntryType → Bool → Bool
type_after entry_file entry_folder by_name = true
type_after entry_folder entry_file by_name = false
type_after _ _ by_name = by_name

unfoldable pub entry_after : Entry → Entry → Bool
unfolding name_after
entry_after a b = type_after a.type b.type (name_after a.name b.name)

-- the `while` of the sort, over the entries before `key`, the nearest first
unfoldable pub shift_in : Entry → List Entry → List Entry
unfolding entry_after
shift_in key [] = key ∷ []
shift_in key (e ∷ before) =
    let rest = shift_in key before in if entry_after e key then e ∷ rest else key ∷ e ∷ before

-- the entries before an index, the nearest first, and those from it on
abbrev pub unwind : List Entry → List Entry → List Entry
unwind [] after = after
unwind (e ∷ before) after = unwind before (e ∷ after)

-- the `for` of the sort
unfoldable pub sort_from : List Entry → List Entry → List Entry
unfolding shift_in
sort_from before [] = unwind before []
sort_from before (key ∷ rest) = sort_from (shift_in key before) rest

-- `nn20clock_media_list_sort`; the first round finds nothing before its key
unfoldable pub list_sort : Listing → Listing
unfolding sort_from
list_sort l = if ltb (length l.entries) 2 then l else record l { entries = sort_from [] l.entries }

-- the counters of `list_counts` after one entry
abbrev pub count_entry : Entry → ℕ × ℕ × ℕ → ℕ × ℕ × ℕ
count_entry e (clips, folders, others) = elim e.type [
  | entry_folder ↦ (clips, folders + 1, others)
  | entry_file ↦ elim e.kind [
    | unknown ↦ (clips, folders, others + 1)
    | _ ↦ (clips + 1, folders, others)
  ]
]

abbrev count_from : List Entry → ℕ × ℕ × ℕ → ℕ × ℕ × ℕ
count_from [] counts = counts
count_from (e ∷ entries) counts = count_from entries (count_entry e counts)

-- `nn20clock_media_list_counts`: clips, folders and others
unfoldable pub list_counts : Listing → ℕ × ℕ × ℕ
list_counts l = count_from l.entries (0, 0, 0)
