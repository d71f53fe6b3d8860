-- ===== src/Avi/Wrap.antt =====
-- nn20clock_avi.c: a file of 2 ^ 32 - 1 bytes, the largest that an offset can name.
use videoalarmclock.Prelude.{
  ℕ, zero, suc, ◌+◌, ◌-◌, ◌%◌, ◌^◌, ◌≤◌, ◌<◌, ◌≡◌, refl, ap, ◌∙◌, true, false, some, List, arith,
}
use videoalarmclock.Prelude.Bytes.{codes}
use videoalarmclock.Prelude.Words.{add32}
use videoalarmclock.Avi.{
  Reader, Info, no_info, four_at, fourcc_is, read_exact, read_chunk_header, padded, clamped,
  room_for_header,
}
use videoalarmclock.Avi.Headers.{out_of_fuel, resume, chunk_loop, parse_chunks, found, skip}
use videoalarmclock.Avi.Parse.{parse, parsed}

abbrev pub largest : ℕ
largest = 2 ^ 32 - 1

-- A chunk at an even offset that claims the rest of the file has an odd size, and its padding byte
-- wraps.
pub wraps :
    (offset claimed : ℕ)
    → offset % 2 ≡ 0
    → offset + 9 < largest
    → largest ≤ claimed + offset + 8
    → padded (add32 offset 8) (clamped claimed (add32 offset 8) largest) ≡ 0
wraps offset claimed h k l = ground arith

pub room_largest : (offset : ℕ) → offset + 9 < largest → room_for_header offset largest ≡ true
unfolding room_for_header
room_largest offset h = ground arith

module _ (read : Reader) (id : List ℕ) (claimed : ℕ) (list : fourcc_is id "LIST" ≡ false)
    (index : fourcc_is id "idx1" ≡ false) where
  other_chunk :
      (offset fuel depth : ℕ) (info : Info)
      → read_chunk_header read offset ≡ some (id, claimed)
      → offset % 2 ≡ 0
      → offset + 9 < largest
      → largest ≤ claimed + offset + 8
      → chunk_loop (suc fuel) read offset largest depth info
        ≡ chunk_loop fuel read 0 largest depth info
  unfolding chunk_loop found
  other_chunk offset fuel depth info e h k l =
      rw (chunk_loop, room_largest offset k, e, passed, wraps offset claimed h k l) refl
    where
      passed : found read id (add32 offset 8) (clamped claimed (add32 offset 8) largest) info ≡ skip
      passed = rw (list, index) refl

-- At the offset 0, where "RIFF" stands, the walk comes back to where it is.
stuck :
    (read : Reader) (claimed : ℕ)
    → read_chunk_header read 0 ≡ some (codes "RIFF", claimed)
    → largest ≤ claimed + 8
    → (fuel depth : ℕ) (info : Info) → chunk_loop fuel read 0 largest depth info ≡ out_of_fuel
unfolding chunk_loop
stuck read claimed e h zero depth info = refl
stuck read claimed e h (suc fuel) depth info =
    other_chunk read (codes "RIFF") claimed refl refl 0 fuel depth info e refl (omega arith)
      (omega arith)
    ∙ stuck read claimed e h fuel depth info

-- The parse of a file of 2 ^ 32 - 1 bytes does not end if its first chunk is neither a list nor an
-- index and claims the rest of the file, and the size in front of "AVI " claims all of it: no fuel
-- is enough.
pub parse-stuck :
    (read : Reader) (header : List ℕ) (claimed : ℕ) (id : List ℕ) (size : ℕ)
    → read_exact read 0 12 ≡ some header
    → fourcc_is (four_at header 0) "RIFF" ≡ true
    → fourcc_is (four_at header 8) "AVI " ≡ true
    → read_chunk_header read 0 ≡ some (codes "RIFF", claimed)
    → largest ≤ claimed + 8
    → read_chunk_header read 12 ≡ some (id, size)
    → fourcc_is id "LIST" ≡ false
    → fourcc_is id "idx1" ≡ false
    → largest ≤ size + 20
    → (fuel : ℕ) → parse fuel read largest ≡ out_of_fuel
unfolding parse parse_chunks chunk_loop
parse-stuck read header claimed id size e riff avi first h second list index k fuel =
    rw (parse, e, riff, avi) (ap (λ w. resume w (parsed read largest)) (walk fuel))
  where
    walk : (fuel : ℕ) → parse_chunks fuel read 12 largest no_info ≡ out_of_fuel
    walk zero = refl
    walk (suc fuel) =
        other_chunk read id size list index 12 fuel 0 no_info second refl (omega arith)
          (omega arith)
        ∙ stuck read claimed first h fuel 0 no_info
