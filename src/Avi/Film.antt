-- ===== src/Avi/Film.antt =====
-- nn20clock_avi.c: what a parse answers.
use videoalarmclock.Ringbuf.{sub32}
use videoalarmclock.Prelude.{
  ℕ, ◌+◌, ◌*◌, ◌≤◌, ◌<◌, ◌≡◌, refl, ◌≢◌, inl, inr, true, false, ◌||◌, not, some, List, arith, ltb,
  leb, ◌==◌, Option-cases, subst, if-split, if-either,
}
use videoalarmclock.Avi.{Reader, Info, no_info, four_at, fourcc_is, read_exact}
use videoalarmclock.Avi.Headers.{Walk, ended, out_of_fuel, resume}
use videoalarmclock.Avi.Index.{resolve_index_base, base_agrees, read_index_record}
use videoalarmclock.Avi.Parse.{parse, parsed, end_of, with_rate, with_movi_end, is_playable}
use videoalarmclock.Avi.Placed.{Placed, Leaves}
use videoalarmclock.Avi.Walks.{parse_chunks-Leaves}
use videoalarmclock.Avi.Steps.{last_end}
use videoalarmclock.Platform.{EspErr, is_ok, not_ok, esp_ok, invalid_arg, not_found, not_supported}

-- A film that can be played: its frames and its index lie within the first `end` bytes.
pub record Film (end : ℕ) (info : Info) : Type 0 where
  pub has_frames : 12 ≤ info.movi_start
  pub frames_end : info.movi_start ≤ info.movi_end
  pub frames_inside : info.movi_end ≤ end
  pub index_inside : info.index_offset + info.index_count * 16 ≤ end
  pub has_rate : 1 ≤ info.video_rate
  pub has_scale : 1 ≤ info.video_scale
  pub playable : is_playable info ≡ true

-- the part of it that the index does not change
abbrev Framed : ℕ → Info → Type 0
Framed end info =
    (12 ≤ info.movi_start)
    × (info.movi_start ≤ info.movi_end)
    × (info.movi_end ≤ end)
    × (info.index_offset + info.index_count * 16 ≤ end)
    × (1 ≤ info.video_rate)
    × (1 ≤ info.video_scale)

with_rate-Rated :
    (info : Info) → (1 ≤ (with_rate info).video_rate) × (1 ≤ (with_rate info).video_scale)
with_rate-Rated info =
    if-split (λ i. (1 ≤ Info.video_rate i) × (1 ≤ Info.video_scale i))
      ((info.video_rate == 0) || (info.video_scale == 0)) (λ e. (omega arith, omega arith))
      (λ e. (ground (arith, e), ground (arith, e)))

with_rate-Placed : (end : ℕ) (info : Info) → Placed end info → Placed end (with_rate info)
with_rate-Placed end info p =
    if-either (Placed end) ((info.video_rate == 0) || (info.video_scale == 0)) p p

with_movi_end-Framed :
    (end : ℕ) (info : Info)
    → Placed end info
    → ¬ (info.movi_start ≡ 0)
    → 1 ≤ info.video_rate
    → 1 ≤ info.video_scale
    → Framed end (with_movi_end end info)
with_movi_end-Framed end info p h r s =
    if-split (Framed end) (leb info.movi_end info.movi_start || ltb end info.movi_end)
      (λ e. elim p.0 [
        | inl z ↦ absurd (h z)
        | inr w ↦ (w.0, omega (arith, w.1, w.2), omega arith, p.1, r, s)
      ])
      (λ e. elim p.0 [ inl z ↦ absurd (h z) | inr w ↦ (w.0, w.1, w.2, p.1, r, s) ])

resolve-Framed :
    (read : Reader) (end : ℕ) (info : Info)
    → Framed end info
    → Framed end (resolve_index_base read info)
unfolding resolve_index_base
resolve-Framed read end info f =
    if-split (Framed end) ((info.index_count == 0) || (info.movi_start == 0)) (λ e. f)
      (λ e. elim (Option-cases (read_index_record read info 0)) [
        | inl gone ↦ rw gone unindexed
        | inr ((id, offset), h) ↦ rw h (
            if-either (Framed end) (base_agrees read info (sub32 info.movi_start 4) id offset) f
              (if-either (Framed end) (base_agrees read info 0 id offset) f unindexed))
      ])
  where
    unindexed : Framed end (record info { index_count = 0 })
    unindexed = (f.0, f.1, f.2, omega (arith, f.3), f.4, f.5)

-- what a parse answers, if its fuel reaches the end
abbrev Answers : ℕ → Walk → Type 0
Answers end (ended info e) = e ≡ esp_ok → Film end info
Answers end out_of_fuel = ⊥

not_ok-Answers : (end : ℕ) (info : Info) (e : EspErr) → e ≢ esp_ok → Answers end (ended info e)
not_ok-Answers end info e h q = absurd (h q)

parsed-Answers :
    (read : Reader) (end : ℕ) (info : Info) → Placed end info → Answers end (parsed read end info)
unfolding parsed
parsed-Answers read end info p =
    if-split (Answers end) (info.movi_start == 0)
      (λ e. not_ok-Answers end info not_found (not_ok not_found refl))
      (λ e.
        if-split (Answers end) (is_playable resolved) (λ h q. film e h)
          (λ h. not_ok-Answers end resolved not_supported (not_ok not_supported refl)))
  where
    timed : Info
    timed = with_rate info

    resolved : Info
    resolved = resolve_index_base read (with_movi_end end timed)

    framed : (info.movi_start == 0) ≡ false → Framed end resolved
    framed e = resolve-Framed read end (with_movi_end end timed) (
        with_movi_end-Framed end timed (with_rate-Placed end info p)
          (if-either (λ i. ¬ (Info.movi_start i ≡ 0))
            ((info.video_rate == 0) || (info.video_scale == 0)) (λ q. ground (arith, q, e))
            (λ q. ground (arith, q, e)))
          (with_rate-Rated info).0 (with_rate-Rated info).1)

    film : (info.movi_start == 0) ≡ false → is_playable resolved ≡ true → Film end resolved
    film e h =
        let f = framed e in
        record {
          has_frames = f.0;
          frames_end = f.1;
          frames_inside = f.2;
          index_inside = f.3;
          has_rate = f.4;
          has_scale = f.5;
          playable = h;
        }

resume-Answers :
    (read : Reader) (end : ℕ) (w : Walk)
    → Leaves (Placed end) w
    → Answers end (resume w (parsed read end))
resume-Answers read end out_of_fuel p = p
resume-Answers read end (ended info e) p =
    if-split (Answers end) (is_ok e) (λ h. parsed-Answers read end info p)
      (λ h. not_ok-Answers end info e (not_ok e h))

module _ (fuel : ℕ) (read : Reader) (file_size end : ℕ)
    (ends : (header : List ℕ) → read_exact read 0 12 ≡ some header → end_of file_size header ≡ end)
    (small : end ≤ last_end) (enough : end < fuel) where
  parse-Answers : Answers end (parse fuel read file_size)
  unfolding parse
  parse-Answers = elim (Option-cases (read_exact read 0 12)) [
    | inl gone ↦ rw (parse, gone) (not_ok-Answers end no_info invalid_arg (not_ok invalid_arg refl))
    | inr (header, e) ↦
        rw (parse, e, ends header e)
          (if-either (Answers end)
            (not (fourcc_is (four_at header 0) "RIFF") || not (fourcc_is (four_at header 8) "AVI "))
            (not_ok-Answers end no_info invalid_arg (not_ok invalid_arg refl))
            (if-split (Answers end) (leb end 12)
              (λ h. not_ok-Answers end no_info not_found (not_ok not_found refl))
              (λ h.
                resume-Answers read end _
                  (parse_chunks-Leaves fuel read end (ground (arith, h)) small enough))))
  ]

  -- The parse of a file ends, whatever its bytes are, if it is shorter than 2 ^ 32 - 1 bytes: as much
  -- fuel as the file has bytes, and one more, is enough.
  pub parse-ends : parse fuel read file_size ≢ out_of_fuel
  parse-ends q = subst (Answers end) q parse-Answers

  -- What a parse that answers ESP_OK has found can be played, has a rate that is not zero, and has its
  -- frames and its index within the file, which is shorter than 2 ^ 32 - 1 bytes.
  pub parse-Film : (info : Info) → parse fuel read file_size ≡ ended info esp_ok → Film end info
  parse-Film info q = subst (Answers end) q parse-Answers refl
