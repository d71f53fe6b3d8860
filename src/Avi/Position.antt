-- ===== src/Avi/Position.antt =====
-- nn20clock_avi.c: the position of a film, and its rate.
use videoalarmclock.Prelude.{
  ℕ, ◌-◌, ◌*◌, ◌/◌, ◌≤◌, ◌<◌, ◌≡◌, ◌⊎◌, inl, inr, false, ◌||◌, arith, ltb, leb, ◌==◌, if◌then◌else◌,
  Bool-cases, ltb→lt, if-split,
}
use native.Mathlib.Nat.{div-le_of_le-mul, le-div_iff_mul-le, div-mul-le_self}
use videoalarmclock.Avi.{Info}
use videoalarmclock.Avi.Index.{position_permille}
use videoalarmclock.Avi.Parse.{frame_interval_us}

div_mono : (a b d : ℕ) → 0 < d → a ≤ b → a / d ≤ b / d
div_mono a b d h l = (le-div_iff_mul-le h).1 (omega (arith, div-mul-le_self a d))

share_lem :
    (start end c : ℕ) → start < end → ((c - start) * 1000 / (end - start) ≤ 1000) ⊎ (end < c)
share_lem start end c h = elim (Bool-cases (ltb end c)) [
  | inl past ↦ inr (ltb→lt end c past)
  | inr in_range ↦ inl (div-le_of_le-mul (end - start) (ground (arith, in_range, h)))
]

-- the three cases of a position, of which the last one is a share
choice_lem :
    (start end c c' q q' : ℕ)
    → start < end
    → c ≤ c'
    → q ≤ q'
    → (q ≤ 1000) ⊎ (end < c)
    → (q' ≤ 1000) ⊎ (end < c')
    → ((if leb c start then 0 else (if leb end c then 1000 else q))
        ≤ (if leb c' start then 0 else (if leb end c' then 1000 else q')))
      × ((if leb c' start then 0 else (if leb end c' then 1000 else q')) ≤ 1000)
choice_lem start end c c' q q' h l m b b' = (ground arith, ground arith)

-- The position of a cursor is at most 1000, and does not fall as the cursor moves on.
pub position_permille-grows :
    (info : Info) (cursor cursor' : ℕ)
    → cursor ≤ cursor'
    → (position_permille info cursor ≤ position_permille info cursor')
      × (position_permille info cursor' ≤ 1000)
unfolding position_permille
position_permille-grows info cursor cursor' h =
    elim (Bool-cases (leb info.movi_end info.movi_start)) [
      | inl none_left ↦ rw none_left (omega arith, omega arith)
      | inr more ↦
          let start = info.movi_start in
          let end = info.movi_end in
          let open_range : start < end = ground (arith, more) in
          rw more (
            choice_lem start end cursor cursor' _ _ open_range h
              (div_mono _ _ (end - start) (omega (arith, open_range)) (omega (arith, h)))
              (share_lem start end cursor open_range) (share_lem start end cursor' open_range))
    ]

-- A frame takes between a thousandth of a second and a second, whatever rate a file claims.
pub frame_interval_us_bounds :
    (info : Info) → (1000 ≤ frame_interval_us info) × (frame_interval_us info ≤ 1000000)
unfolding frame_interval_us
frame_interval_us_bounds info =
    if-split Sane ((info.video_rate == 0) || (info.video_scale == 0))
      (λ h. (omega arith, omega arith))
      (λ h.
        if-split Sane (ltb us 1000 || ltb 1000000 us) (λ k. (omega arith, omega arith))
          (λ k. within us k))
  where
    us : ℕ
    us = info.video_scale * 1000000 / info.video_rate

    Sane : ℕ → Type 0
    Sane n = (1000 ≤ n) × (n ≤ 1000000)

    within : (n : ℕ) → (ltb n 1000 || ltb 1000000 n) ≡ false → Sane n
    within n h = (ground (arith, h), ground (arith, h))
