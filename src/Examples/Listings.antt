-- ===== src/Examples/Listings.antt =====
-- A folder of films.
use videoalarmclock.Prelude.Bytes.{codes}
use videoalarmclock.Prelude.{◌≡◌, refl, Bool, some, [], ◌∷◌, arith}
use videoalarmclock.Media.Names.{video}
use videoalarmclock.Media.Listing.{Entry, Listing, entry_file, entry_folder, list_sort}
use videoalarmclock.Media.Listing.Sorted.{InOrder, number, list_sort-InOrder}
use videoalarmclock.Media.Listing.Entries.{IsListing}
use videoalarmclock.Media.Openers.{list_next_opener}
use videoalarmclock.Media.Openers.Next.{NextOpener, run_of, list_next_opener-NextOpener}

abbrev films : Listing
films = record { folder_path = codes "films"; entries = []; skipped = 0 }

abbrev clip : Entry
clip = record {
  name = codes "a.avi";
  path = codes "films/a.avi";
  size_bytes = 9;
  kind = video;
  type = entry_file;
}

films-IsListing : IsListing films
films-IsListing = record { capped = omega arith; lie = tt }

abbrev mixed : Listing
mixed = record films { entries = clip ∷ record clip { name = codes "B"; type = entry_folder } ∷ [] }

list_sort-InOrder_example :
    InOrder (list_sort mixed).entries
    × ((test : Entry → Bool) → number test (list_sort mixed).entries ≡ number test mixed.entries)
    × ((list_sort mixed).folder_path ≡ mixed.folder_path)
    × ((list_sort mixed).skipped ≡ mixed.skipped)
list_sort-InOrder_example = list_sort-InOrder mixed

abbrev numbered : Listing
numbered = record films {
  entries =
      record clip { name = codes "10b.avi" }
      ∷ record clip { name = codes "2.avi" }
      ∷ clip
      ∷ record clip { name = codes "1.avi" }
      ∷ [];
}

second_follows :
    list_next_opener numbered (codes "films/1.avi") ≡ some (record clip { name = codes "2.avi" })
unfolding list_next_opener videoalarmclock.Media.Openers.name_number
    videoalarmclock.Media.Paths.path_name videoalarmclock.Media.Paths.after_last_slash
    videoalarmclock.Media.Openers.best_from videoalarmclock.Media.Openers.keep_first
    videoalarmclock.Media.Openers.opener_number videoalarmclock.Media.Openers.opener_after
    videoalarmclock.Media.Listing.name_after
second_follows = refl

list_next_opener-NextOpener_example :
    NextOpener
      (run_of (codes "films/1.avi"))
      numbered.entries
      (list_next_opener numbered (codes "films/1.avi"))
list_next_opener-NextOpener_example = list_next_opener-NextOpener numbered (codes "films/1.avi")
