-- ===== src/Alarm/Slots/Search.antt =====
-- Where an id stands in the list, and the lowest id that does not.
use native.Mathlib.Decide.{ℕ_discrete, dec_lt}
use videoalarmclock.Prelude.{
  ℕ, zero, suc, ◌+◌, ◌≤◌, ◌<◌, ◌≡◌, refl, sym, ap, ◌∙◌, ◌≢◌, ◌⊎◌, inl, inr, ◌&&◌, Option, none,
  some, List, [], ◌∷◌, arith, ltb, leb, ◌==◌, if◌then◌else◌, Bool-cases, length, get_or, subst,
}
use videoalarmclock.Platform.{ok, err, not_found}
use videoalarmclock.Alarm.Model.{AlarmConfig, id_none, zeroed}
use videoalarmclock.Alarm.Slots.{alarm_max, find_from, list_find, free_id_from, next_free_id}

-- the alarm stored under an id
unfoldable pub stored : List AlarmConfig → ℕ → Option AlarmConfig
stored [] id = none
stored (a ∷ alarms) id = if a.id == id then some a else stored alarms id

-- No two records share an id, and none has the id 0.
abbrev pub Absent : ℕ → List AlarmConfig → Type 0
Absent id [] = Unit
Absent id (a ∷ alarms) = (a.id ≢ id) × Absent id alarms

abbrev pub Distinct : List AlarmConfig → Type 0
Distinct [] = Unit
Distinct (a ∷ alarms) = (a.id ≢ id_none) × Absent a.id alarms × Distinct alarms

pub record IsTable (alarms : List AlarmConfig) : Type 0 where
  pub capped : length alarms ≤ alarm_max
  pub distinct : Distinct alarms

-- the record at index `k` is the one of that id
pub record Found (alarms : List AlarmConfig) (id k : ℕ) : Type 0 where
  pub at : k < length alarms
  pub named : (get_or alarms k zeroed).id ≡ id
  pub kept : stored alarms id ≡ some (get_or alarms k zeroed)

-- A search ends at the record of the id, or the id is absent.
find_from-cases :
    (alarms : List AlarmConfig) (id i : ℕ)
    → ((find_from alarms id i ≡ err not_found) × Absent id alarms)
      ⊎ ((k : ℕ) × (find_from alarms id i ≡ ok (i + k)) × Found alarms id k)
unfolding find_from stored
find_from-cases [] id i = inl (refl, tt)
find_from-cases (a ∷ alarms) id i = elim (Bool-cases (a.id == id)) [
  | inl same ↦
      let e : a.id ≡ id = ground arith in
      inr (0, rw same (ap ok (omega arith)), record { at = omega arith; named = e; kept = rw same })
  | inr other ↦
      let ne : a.id ≢ id = ground arith in
      rw other elim (find_from-cases alarms id (i + 1)) [
        | inl (gone, absent) ↦ inl (gone, (ne, absent))
        | inr (k, at, found) ↦ inr (
          suc k,
          at ∙ ap ok (omega arith),
          record { at = omega (arith, found.at); named = found.named; kept = rw other found.kept },
        )
      ]
]

pub list_find-cases :
    (alarms : List AlarmConfig) (id : ℕ)
    → id ≢ id_none
    → ((list_find alarms id ≡ err not_found) × Absent id alarms)
      ⊎ ((k : ℕ) × (list_find alarms id ≡ ok k) × Found alarms id k)
unfolding list_find
list_find-cases alarms id h = elim (find_from-cases alarms id 0) [
  | inl (gone, absent) ↦ inl (ground arith, absent)
  | inr (k, at, found) ↦ inr (k, ground arith, found)
]

pub stored-Absent :
    (alarms : List AlarmConfig) (id : ℕ) → Absent id alarms → stored alarms id ≡ none
unfolding stored
stored-Absent [] id h = refl
stored-Absent (a ∷ alarms) id h = ground (arith, stored-Absent alarms id h.1)

pub Found-present : (alarms : List AlarmConfig) (id k : ℕ) → Found alarms id k → ¬ Absent id alarms
Found-present alarms id k found absent =
    let clash : none ≡ some (get_or alarms k zeroed) =
      sym (stored-Absent alarms id absent) ∙ found.kept in
    absurd (cc)

-- how many records have one of the `n` ids from `lo` on
in_range : List AlarmConfig → ℕ → ℕ → ℕ
in_range [] lo n = 0
in_range (a ∷ alarms) lo n =
    (if leb lo a.id && ltb a.id (lo + n) then 1 else 0) + in_range alarms lo n

in_range-le : (alarms : List AlarmConfig) (lo n : ℕ) → in_range alarms lo n ≤ length alarms
unfolding in_range
in_range-le [] lo n = omega arith
in_range-le (a ∷ alarms) lo n = ground (arith, in_range-le alarms lo n)

in_range-suc :
    (alarms : List AlarmConfig) (lo n : ℕ)
    → in_range alarms lo (suc n) ≡ in_range alarms lo 1 + in_range alarms (lo + 1) n
unfolding in_range
in_range-suc [] lo n = refl
in_range-suc (a ∷ alarms) lo n = ground (arith, in_range-suc alarms lo n)

in_range_pos : (alarms : List AlarmConfig) (id : ℕ) → ¬ Absent id alarms → 1 ≤ in_range alarms id 1
unfolding in_range
in_range_pos [] id h = absurd (h tt)
in_range_pos (a ∷ alarms) id h = elim (ℕ_discrete a.id id) [
  | yes same ↦ ground arith
  | no other ↦ ground (arith, in_range_pos alarms id (λ absent. h (other, absent)))
]

-- What the search for a free id returns: the lowest of its candidates that is absent, behind a run
-- of ids that are all taken; or 0, and all are.
free_id_from-cases :
    (alarms : List AlarmConfig) (todo lo : ℕ)
    → 0 < lo
    → ((free_id_from alarms todo lo ≡ id_none) × (todo ≤ in_range alarms lo todo))
      ⊎ ((n : ℕ) × (free_id_from alarms todo lo ≡ lo + n)
          × Absent (lo + n) alarms
          × (n ≤ in_range alarms lo n)
          × ((j : ℕ) → lo ≤ j → j < lo + n → ¬ Absent j alarms))
unfolding free_id_from
free_id_from-cases alarms zero lo h = inl (refl, omega arith)
free_id_from-cases alarms (suc todo) lo h = elim (list_find-cases alarms lo (omega arith)) [
  | inl (gone, absent) ↦ inr (
    0,
    rw gone (omega arith),
    subst (λ (k : ℕ). Absent k alarms) (omega arith) absent,
    omega arith,
    λ j lo' hi. absurd (omega arith),
  )
  | inr (k, at, found) ↦
      let taken : 1 ≤ in_range alarms lo 1 =
        in_range_pos alarms lo (Found-present alarms lo k found) in
      rw at elim (free_id_from-cases alarms todo (lo + 1) (omega arith)) [
        | inl (used_up, many) ↦
            inl (used_up, omega (arith, taken, many, in_range-suc alarms lo todo))
        | inr (n, got, absent, many, below) ↦ inr (
          suc n,
          got ∙ omega arith,
          subst (λ (k : ℕ). Absent k alarms) (omega arith) absent,
          omega (arith, taken, many, in_range-suc alarms lo n),
          λ j lo' hi. elim (dec_lt lo j) [
            | yes past ↦ below j (omega arith) (omega arith)
            | no same ↦
                subst (λ (k : ℕ). ¬ Absent k alarms) (omega arith) (Found-present alarms lo k found)
          ],
        )
      ]
]

-- While the list has at most as many records as the array, the id handed out is not 0, is in no
-- record, is the lowest such id, and is at most one more than the number of records.
pub next_free_id_lem :
    (alarms : List AlarmConfig)
    → length alarms ≤ alarm_max
    → (next_free_id alarms ≢ id_none)
      × Absent (next_free_id alarms) alarms
      × (next_free_id alarms ≤ length alarms + 1)
      × ((j : ℕ) → j ≢ id_none → j < next_free_id alarms → ¬ Absent j alarms)
unfolding next_free_id
next_free_id_lem alarms small = elim (free_id_from-cases alarms (alarm_max + 1) 1 (omega arith)) [
  | inl (used_up, many) ↦ absurd (omega (arith, in_range-le alarms 1 (alarm_max + 1)))
  | inr (n, got, absent, many, below) ↦ rw got (
    omega arith,
    absent,
    omega (arith, in_range-le alarms 1 n),
    λ j ne hi. below j (omega arith) hi,
  )
]
