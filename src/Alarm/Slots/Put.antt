-- ===== src/Alarm/Slots/Put.antt =====
-- `nn20clock_alarm_list_put` against a map from ids to alarms.
use videoalarmclock.Alarm.Slots.Writes.{Distinct-append, Distinct-set, stored-append, stored-set}
use native.Mathlib.Decide.{dec_lt}
use videoalarmclock.Prelude.{
  ℕ, ◌≤◌, ◌<◌, ◌≡◌, refl, ◌≢◌, ◌↔◌, ◌⊎◌, inl, inr, some, List, [], ◌∷◌, ◌++◌, arith, ◌==◌,
  if◌then◌else◌, Bool-cases, length, set, length-append, subst, length-set,
}
use videoalarmclock.Platform.{EspErr, esp_ok, no_mem, ok, err}
use videoalarmclock.Alarm.Model.{AlarmConfig, id_none, validate}
use videoalarmclock.Alarm.Slots.{alarm_max, next_free_id, assigned, list_add, list_store, list_put}
use videoalarmclock.Alarm.Slots.Search.{
  stored, Absent, IsTable, Found, list_find-cases, next_free_id_lem, Found-present,
}

-- What a successful put leaves behind.
pub record Put (alarms : List AlarmConfig) (a : AlarmConfig) (out : List AlarmConfig × ℕ)
    : Type 0 where
  pub table : IsTable out.0
  pub given : out.1 ≢ id_none
  pub own : a.id ≢ id_none → out.1 ≡ a.id
  pub fresh : a.id ≡ id_none → Absent out.1 alarms × (out.1 ≤ alarm_max)
  pub map_after :
      (j : ℕ)
      → stored out.0 j ≡ (if j == out.1 then some (record a { id = out.1 }) else stored alarms j)

added-Put :
    (alarms : List AlarmConfig) (a : AlarmConfig)
    → IsTable alarms
    → length alarms < alarm_max
    → (a.id ≢ id_none → Absent a.id alarms)
    → Put alarms a (alarms ++ assigned alarms a ∷ [], (assigned alarms a).id)
added-Put alarms a t room absent = elim (Bool-cases (a.id == id_none)) [
  | inl blank ↦
      let (ne, new, low, lowest) = next_free_id_lem alarms (omega arith) in
      let b : AlarmConfig = record a { id = next_free_id alarms } in
      rw blank record {
        table = record {
          capped = omega (arith, length-append alarms (b ∷ []));
          distinct = Distinct-append alarms b t.distinct ne new;
        };
        given = ne;
        own = λ h. absurd (h (ground arith));
        fresh = λ h. (new, omega arith);
        map_after = λ j. stored-append alarms b j new;
      }
  | inr named ↦
      let ne : a.id ≢ id_none = ground arith in
      rw named record {
        table = record {
          capped = omega (arith, length-append alarms (a ∷ []));
          distinct = Distinct-append alarms a t.distinct ne (absent ne);
        };
        given = ne;
        own = λ h. refl;
        fresh = λ h. absurd (ne h);
        map_after = λ j. stored-append alarms a j (absent ne);
      }
]

list_add-Put :
    (alarms : List AlarmConfig) (a : AlarmConfig) {out : List AlarmConfig × ℕ}
    → IsTable alarms
    → (a.id ≢ id_none → Absent a.id alarms)
    → list_add alarms a ≡ ok out
    → Put alarms a out
unfolding list_add
list_add-Put alarms a {out} t absent e = elim (dec_lt (length alarms) alarm_max) [
  | no full ↦ absurd (ground arith)
  | yes room ↦
      let same : (alarms ++ assigned alarms a ∷ [], (assigned alarms a).id) ≡ out = ground arith in
      subst (Put alarms a) same (added-Put alarms a t room absent)
]

replaced-Put :
    (alarms : List AlarmConfig) (a : AlarmConfig) (k : ℕ)
    → IsTable alarms
    → a.id ≢ id_none
    → Found alarms a.id k
    → Put alarms a (set alarms k a, a.id)
replaced-Put alarms a k t ne found = record {
  table = record {
    capped = omega (arith, length-set alarms k a, t.capped);
    distinct = Distinct-set alarms k a.id a t.distinct found.at found.named ne (inl refl);
  };
  given = ne;
  own = λ h. refl;
  fresh = λ h. absurd (ne h);
  map_after =
      λ j. ground (arith, stored-set alarms k a.id j a t.distinct found.at found.named (inl refl));
}

list_store-Put :
    (alarms : List AlarmConfig) (a : AlarmConfig) {out : List AlarmConfig × ℕ}
    → IsTable alarms
    → list_store alarms a ≡ ok out
    → Put alarms a out
unfolding list_store
list_store-Put alarms a {out} t e = elim (Bool-cases (a.id == id_none)) [
  | inl blank ↦ list_add-Put alarms a t (λ ne. absurd (ne (ground arith))) (ground arith)
  | inr named ↦
      let ne : a.id ≢ id_none = ground arith in
      elim (list_find-cases alarms a.id ne) [
        | inl (gone, absent) ↦ list_add-Put alarms a t (λ h. absent) (ground arith)
        | inr (k, at, found) ↦
            let same : (set alarms k a, a.id) ≡ out = ground arith in
            subst (Put alarms a) same (replaced-Put alarms a k t ne found)
      ]
]

-- A put into a list of at most sixteen records with distinct ids, if it succeeds, was of a valid
-- alarm. It leaves such a list, in which the record of the id returned is the alarm put, under
-- that id, and every other is what it was. The id is the alarm's own, or if that is 0 one that was
-- in no record and is at most sixteen.
pub list_put-Put :
    (alarms : List AlarmConfig) (a : AlarmConfig) {out : List AlarmConfig × ℕ}
    → IsTable alarms
    → list_put alarms (some a) ≡ ok out
    → (validate (some a) ≡ esp_ok) × Put alarms a out
unfolding list_put
list_put-Put alarms a {out} t e =
    let w : (validate (some a) ≡ esp_ok) × (list_store alarms a ≡ ok out) = ground arith in
    (w.0, list_store-Put alarms a t w.1)

list_add-cases :
    (alarms : List AlarmConfig) (a : AlarmConfig)
    → length alarms ≤ alarm_max
    → ((list_add alarms a ≡ err no_mem) × (length alarms ≡ alarm_max))
      ⊎ ((out : List AlarmConfig × ℕ) × (list_add alarms a ≡ ok out) × (length alarms < alarm_max))
unfolding list_add
list_add-cases alarms a small = elim (dec_lt (length alarms) alarm_max) [
  | no full ↦ inl (ground arith, omega arith)
  | yes room ↦ inr ((alarms ++ assigned alarms a ∷ [], (assigned alarms a).id), ground arith, room)
]

list_store-cases :
    (alarms : List AlarmConfig) (a : AlarmConfig)
    → IsTable alarms
    → ((list_store alarms a ≡ err no_mem)
        × (length alarms ≡ alarm_max)
        × (a.id ≢ id_none → Absent a.id alarms))
      ⊎ ((out : List AlarmConfig × ℕ) × (list_store alarms a ≡ ok out)
          × ((length alarms < alarm_max) ⊎ ((a.id ≢ id_none) × ¬ Absent a.id alarms)))
unfolding list_store
list_store-cases alarms a t = elim (Bool-cases (a.id == id_none)) [
  | inl blank ↦ elim (list_add-cases alarms a t.capped) [
    | inl (full, sixteen) ↦ inl (ground arith, sixteen, λ ne. absurd (ne (ground arith)))
    | inr (out, added, room) ↦ inr (out, ground arith, inl room)
  ]
  | inr named ↦
      let ne : a.id ≢ id_none = ground arith in
      elim (list_find-cases alarms a.id ne) [
        | inl (gone, absent) ↦ elim (list_add-cases alarms a t.capped) [
          | inl (full, sixteen) ↦ inl (ground arith, sixteen, λ h. absent)
          | inr (out, added, room) ↦ inr (out, ground arith, inl room)
        ]
        | inr (k, at, found) ↦
            inr ((set alarms k a, a.id), ground arith, inr (ne, Found-present alarms a.id k found))
      ]
]

-- A valid alarm is refused only for want of room: the put fails exactly if the list has sixteen
-- records and none of them has the alarm's id (if that is not 0), and with that code alone.
pub list_put_refused :
    (alarms : List AlarmConfig) (a : AlarmConfig)
    → IsTable alarms
    → validate (some a) ≡ esp_ok
    → ((list_put alarms (some a) ≡ err no_mem)
        ↔ ((length alarms ≡ alarm_max) × (a.id ≢ id_none → Absent a.id alarms)))
      × ((e : EspErr) → list_put alarms (some a) ≡ err e → e ≡ no_mem)
unfolding list_put
list_put_refused alarms a t valid =
    rw (valid, list_put)
      elim (list_store-cases alarms a t) [
        | inl (refused, sixteen, absent) ↦
            ((λ h. (sixteen, absent), λ h. refused), λ e h. ground arith)
        | inr (out, stored_at, inl room) ↦ (
          (λ h. absurd (ground arith), λ h. absurd (omega (arith, room, h.0))),
          λ e h. ground arith,
        )
        | inr (out, stored_at, inr (ne, present)) ↦
            ((λ h. absurd (ground arith), λ h. absurd (present (h.1 ne))), λ e h. ground arith)
      ]
