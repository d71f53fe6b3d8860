-- ===== src/Avi/Landing.antt =====
-- nn20clock_avi.c: where a seek lands.
use videoalarmclock.Prelude.{
  ℕ, zero, suc, ◌+◌, ◌*◌, ◌/◌, ◌^◌, ◌≤◌, ◌<◌, min, ◌≡◌, refl, ◌⊎◌, inl, inr, true, false, ◌||◌,
  Option, none, some, arith, ltb, leb, if◌then◌else◌, Option-cases, ltb→lt, if-split, subst,
}
use videoalarmclock.Prelude.Words.{add32, u32}
use videoalarmclock.Avi.{Reader, Info}
use videoalarmclock.Avi.Frames.{ChunkKind, video, audio, other, chunk_kind}
use videoalarmclock.Avi.Steps.{add32_lem, sub32_lem}
use videoalarmclock.Avi.Index.{
  read_index_record, off_frames, video_record_at, search_on, search_back, first_record, seek,
  has_index,
}
use videoalarmclock.Platform.{Result, ok, err, not_found}

-- the records that a seek for the record `first` looks at
abbrev pub Near : Info → ℕ → ℕ → Type 0
Near info first n = (n < info.index_count) × (n < first + 32) × (first ≤ n + 32)

-- What a search answers: the offset of a video record that it has seen, or `none` if there is none.
abbrev pub Finds : Reader → Info → (ℕ → Type 0) → Option ℕ → Type 0
Finds read info Seen (some at) = (n : ℕ) × (Seen n) × (video_record_at read info n ≡ some at)
Finds read info Seen none = (n : ℕ) → Seen n → video_record_at read info n ≡ none

le_cases : (n m : ℕ) → n ≤ m → (m ≡ n) ⊎ (n + 1 ≤ m)
le_cases n m h = omega arith

lt_cases : (n m : ℕ) → m < suc n → (m ≡ n) ⊎ (m < n)
lt_cases n m h = omega arith

off_frames_lem :
    (at start end : ℕ) → (ltb at start || leb end at) ≡ false → (start ≤ at) × (at < end)
off_frames_lem at start end h = (ground (arith, h), ground (arith, h))

-- an offset within the frames
abbrev pub InFrames : Info → Option ℕ → Type 0
InFrames info none = Unit
InFrames info (some at) = (info.movi_start ≤ at) × (at < info.movi_end)

video_record_at-InFrames :
    (read : Reader) (info : Info) (n : ℕ) → InFrames info (video_record_at read info n)
unfolding video_record_at
video_record_at-InFrames read info n = elim (Option-cases (read_index_record read info n)) [
  | inl gone ↦ rw (video_record_at, gone) tt
  | inr ((id, offset), e) ↦ rw (video_record_at, e) (go (chunk_kind id) offset)
]
  where
    go :
        (k : ChunkKind) (offset : ℕ)
        → InFrames info (elim k [
          | video ↦
              if off_frames info (add32 info.index_base offset)
              then none
              else some (add32 info.index_base offset)
          | _ ↦ none
        ])
    go video offset =
        if-split (InFrames info) (off_frames info (add32 info.index_base offset)) (λ h. tt)
          (λ h. off_frames_lem _ info.movi_start info.movi_end h)
    go audio offset = tt
    go other offset = tt

module _ (read : Reader) (info : Info) where
  extend :
      (Seen Seen' : ℕ → Type 0) (n : ℕ) (o : Option ℕ)
      → video_record_at read info n ≡ none
      → ((m : ℕ) → Seen' m → Seen m)
      → ((m : ℕ) → Seen m → (m ≡ n) ⊎ (Seen' m))
      → Finds read info Seen' o
      → Finds read info Seen o
  extend Seen Seen' n (some at) miss wider split p = (p.0, wider p.0 p.1, p.2)
  extend Seen Seen' n none miss wider split p =
      λ m seen. elim (split m seen) [ inl e ↦ rw e miss | inr seen' ↦ p m seen' ]

  -- the records from `n` on
  On : ℕ → ℕ → ℕ → Type 0
  On n span m = (n ≤ m) × (m < n + span) × (m < info.index_count)

  search_on-Finds :
      (span n : ℕ)
      → info.index_count < 2 ^ 32
      → Finds read info (On n span) (search_on span read info n)
  unfolding search_on On
  search_on-Finds zero n s = λ m h. absurd (omega (arith, h.0, h.1))
  search_on-Finds (suc span) n s =
      if-split (Finds read info (On n (suc span))) (leb info.index_count n)
        (λ past. λ m h. absurd (ground (arith, past, h.0, h.2)))
        (λ more. elim (Option-cases (video_record_at read info n)) [
          | inr (at, e) ↦ rw e (n, (omega arith, omega arith, ground (arith, more)), e)
          | inl miss ↦
              rw (miss, add32_lem n 1 (ground (arith, more, s)))
                (extend (On n (suc span)) (On (n + 1) span) n _ miss
                  (λ m h. (omega (arith, h.0), omega (arith, h.1), h.2))
                  (λ m h. (elim (le_cases n m h.0) [
                    | inl e ↦ inl e
                    | inr l ↦ inr (l, omega (arith, h.1), h.2)
                  ]))
                  (search_on-Finds span (n + 1) s))
        ])

  -- and those before it
  Back : ℕ → ℕ → ℕ → Type 0
  Back n span m = (m < n) × (n ≤ m + span)

  search_back-Finds : (span n : ℕ) → Finds read info (Back n span) (search_back span read info n)
  unfolding search_back Back
  search_back-Finds zero n = λ m h. absurd (omega (arith, h.0, h.1))
  search_back-Finds (suc span) zero = λ m h. absurd (omega (arith, h.0, h.1))
  search_back-Finds (suc span) (suc n) = elim (Option-cases (video_record_at read info n)) [
    | inr (at, e) ↦ rw (search_back, e) (n, (omega arith, omega arith), e)
    | inl miss ↦
        rw (search_back, miss)
          (extend (Back (suc n) (suc span)) (Back n span) n _ miss
            (λ m h. (omega (arith, h.0), omega (arith, h.1)))
            (λ m h. elim (lt_cases n m h.0) [ inl e ↦ inl e | inr l ↦ inr (l, omega (arith, h.1)) ])
            (search_back-Finds span n))
  ]

side : (n first : ℕ) → (n < first) ⊎ (first ≤ n)
side n first = omega arith

first_record_lem :
    (info : Info) (permille : ℕ)
    → info.index_count < 2 ^ 32
    → 0 < info.index_count
    → first_record info permille < info.index_count
first_record_lem info permille h k =
    if-split (λ n. n < info.index_count)
      (leb info.index_count (u32 (info.index_count * min permille 1000 / 1000)))
      (λ past. rw (sub32_lem info.index_count 1 k h) (omega arith)) (λ more. ground (arith, more))

-- What a seek for the record `first` answers: a place within the frames that one of the records near
-- `first` has of a video chunk, or ESP_ERR_NOT_FOUND, and then there is no such record.
abbrev pub Sought : Reader → Info → ℕ → Result ℕ → Type 0
Sought read info first (ok at) =
    (n : ℕ) × (Near info first n)
    × (video_record_at read info n ≡ some at)
    × (info.movi_start ≤ at)
    × (at < info.movi_end)
Sought read info first (err e) =
    (e ≡ not_found) × ((n : ℕ) → Near info first n → video_record_at read info n ≡ none)

-- A seek in a film with an index looks at the 32 records from the one that stands for the position
-- and the 32 before it, and lands on a video chunk within the frames if one of them has it.
pub seek-Sought :
    (read : Reader) (info : Info) (permille : ℕ)
    → has_index info ≡ true
    → info.index_count < 2 ^ 32
    → Sought read info (first_record info permille) (seek read info permille)
unfolding seek On Back
seek-Sought read info permille h s = elim (Option-cases (search_on 32 read info first)) [
  | inr (at, e) ↦
      let p =
        subst (Finds read info (On read info first 32)) e (search_on-Finds read info 32 first s) in
      rw (seek, h, e) (landed p.0 (p.1.2, p.1.1, omega (arith, p.1.0)) p.2)
  | inl ahead ↦ elim (Option-cases (search_back 32 read info first)) [
    | inr (at, e) ↦
        let p =
          subst (Finds read info (Back read info first 32)) e
            (search_back-Finds read info 32 first) in
        rw (seek, h, ahead, e)
          (landed p.0 (lt_both p.1.0 in_index, omega (arith, p.1.0), p.1.1) p.2)
    | inl behind ↦
        rw (seek, h, ahead, behind)
          (
            refl,
            λ n near. elim (near_cases n near) [
              | inl on ↦
                  (subst (Finds read info (On read info first 32)) ahead
                      (search_on-Finds read info 32 first s))
                    n on
              | inr back ↦
                  (subst (Finds read info (Back read info first 32)) behind
                      (search_back-Finds read info 32 first))
                    n back
            ],
          )
  ]
]
  where
    first : ℕ
    first = first_record info permille

    in_index : first < info.index_count
    in_index = first_record_lem info permille s (ltb→lt 0 info.index_count h)

    lt_both : {m : ℕ} → m < first → first < info.index_count → m < info.index_count
    lt_both a b = omega arith

    near_cases : (n : ℕ) → Near info first n → On read info first 32 n ⊎ Back read info first 32 n
    near_cases n near = elim (side n first) [
      | inl l ↦ inr (l, near.2)
      | inr g ↦ inl (g, near.1, near.0)
    ]

    landed :
        {at : ℕ} (n : ℕ)
        → Near info first n
        → video_record_at read info n ≡ some at
        → Sought read info first (ok at)
    landed n near e =
        let q = subst (InFrames info) e (video_record_at-InFrames read info n) in
        (n, near, e, q.0, q.1)
