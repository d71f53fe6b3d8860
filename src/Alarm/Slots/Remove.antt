-- ===== src/Alarm/Slots/Remove.antt =====
-- `nn20clock_alarm_list_remove` against a map from ids to alarms.
use videoalarmclock.Alarm.Slots.Writes.{
  Distinct-set, stored-set, stored-append, Absent-get_or, stored_absent,
}
use videoalarmclock.Prelude.Back.{
  unsnoc, get_or-back, get_or-front, set_past, filled, filled-append,
}
use native.Mathlib.Decide.{dec_lt, ℕ_discrete}
use videoalarmclock.Prelude.{
  ℕ, ◌+◌, ◌≡◌, sym, ap, ◌∙◌, ◌≢◌, inl, inr, none, List, [], ◌∷◌, ◌++◌, arith, ◌==◌, if◌then◌else◌,
  length, set, subst, get_or, length-append, length-set,
}
use videoalarmclock.Platform.{ok}
use videoalarmclock.Alarm.Model.{AlarmConfig, id_none, zeroed}
use videoalarmclock.Alarm.Slots.{list_find, list_remove}
use videoalarmclock.Alarm.Slots.Search.{stored, Absent, Distinct, IsTable, Found, list_find-cases}

Distinct-back :
    (front : List AlarmConfig) (back : AlarmConfig)
    → Distinct (front ++ back ∷ [])
    → Distinct front × Absent back.id front × (back.id ≢ id_none)
Distinct-back [] back d = (tt, tt, d.0)
Distinct-back (a ∷ front) back d =
    let (df, absent, ne) = Distinct-back front back d.2 in
    ((d.0, Absent-front front d.1, df), (λ e. back_ne front d.1 (sym e), absent), ne)
  where
    Absent-front : (front : List AlarmConfig) → Absent a.id (front ++ back ∷ []) → Absent a.id front
    Absent-front [] h = tt
    Absent-front (b ∷ front) h = (h.0, Absent-front front h.1)

    back_ne : (front : List AlarmConfig) → Absent a.id (front ++ back ∷ []) → back.id ≢ a.id
    back_ne [] h = h.0
    back_ne (b ∷ front) h = back_ne front h.1

-- The last record in the place of the one at `k`, and the list one shorter.
removed_map :
    (front : List AlarmConfig) (back : AlarmConfig) (k id j : ℕ)
    → Distinct (front ++ back ∷ [])
    → Found (front ++ back ∷ []) id k
    → Distinct (set front k back)
      × (stored (set front k back) j ≡ (if j == id then none else stored (front ++ back ∷ []) j))
removed_map front back k id j d found =
    let (df, absent, ne) = Distinct-back front back d in
    elim (dec_lt k (length front)) [
      | yes lt ↦
          let e : (get_or front k zeroed).id ≡ id =
            ap (λ (a : AlarmConfig). a.id) (sym (get_or-front front back k zeroed lt))
            ∙ found.named in
          (
            Distinct-set front k id back df lt e ne (inr absent),
            ground (
              arith,
              stored-set front k id j back df lt e (inr absent),
              stored-append front back j absent,
              Absent-get_or front back.id k absent lt,
            ),
          )
      | no past ↦
          let last : k ≡ length front = omega (arith, found.at, length-append front (back ∷ [])) in
          let e : back.id ≡ id =
            ap (λ (a : AlarmConfig). a.id)
              (sym (
                ap (λ (n : ℕ). get_or (front ++ back ∷ []) n zeroed) last
                ∙ get_or-back front back zeroed))
            ∙ found.named in
          rw (set_past front k back (omega arith)) (
            df,
            ground (arith, stored-append front back j absent, stored_absent front back.id j absent),
          )
    ]

abbrev Removed : List AlarmConfig → ℕ → List AlarmConfig → Type 0
Removed alarms id alarms' =
    IsTable alarms'
    × (length alarms' + 1 ≡ length alarms)
    × ((j : ℕ) → stored alarms' j ≡ (if j == id then none else stored alarms j))

without-Removed :
    (alarms : List AlarmConfig) (id k : ℕ)
    → IsTable alarms
    → Found alarms id k
    → Removed alarms id (filled alarms k zeroed)
without-Removed [] id k t found = absurd (omega (arith, found.at))
without-Removed (a ∷ alarms) id k t found =
    let (front, back, e) = unsnoc a alarms in
    let d : Distinct (front ++ back ∷ []) = subst Distinct e t.distinct in
    let f : Found (front ++ back ∷ []) id k = subst (λ l. Found l id k) e found in
    let count : length (front ++ back ∷ []) ≡ length front + 1 = length-append front (back ∷ []) in
    subst (λ l. Removed l id (filled l k zeroed)) (sym e)
      (rw (filled-append front back k zeroed) (
        record {
          capped =
              omega
                (arith, length-set front k back, count, ap (length {A = AlarmConfig}) e, t.capped);
          distinct = (removed_map front back k id 0 d f).0;
        },
        omega (arith, length-set front k back, count),
        λ j. (removed_map front back k id j d f).1,
      ))

-- Removing an id, if it succeeds, from a list of at most sixteen records with distinct ids leaves
-- such a list, one shorter: the map without that id, every other record as it was.
pub list_remove_lem :
    (alarms : List AlarmConfig) (id : ℕ) {alarms' : List AlarmConfig}
    → IsTable alarms
    → list_remove alarms id ≡ ok alarms'
    → IsTable alarms'
      × (length alarms' + 1 ≡ length alarms)
      × ((j : ℕ) → stored alarms' j ≡ (if j == id then none else stored alarms j))
unfolding list_remove list_find
list_remove_lem alarms id {alarms'} t e = elim (ℕ_discrete id id_none) [
  | yes blank ↦ absurd (ground arith)
  | no ne ↦ elim (list_find-cases alarms id ne) [
    | inl (gone, absent) ↦ absurd (ground arith)
    | inr (k, at, found) ↦
        let same : filled alarms k zeroed ≡ alarms' = ground arith in
        subst (Removed alarms id) same (without-Removed alarms id k t found)
  ]
]
