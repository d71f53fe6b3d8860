-- ===== src/Alarm/Slots/Earliest.antt =====
-- `nn20clock_alarm_list_first_in`: the earliest occurrence of all alarms in an interval.
use videoalarmclock.Prelude.Int.{ℤ, ◌≤ℤ◌, ltb_ℤ, ◌<ℤ◌}
use videoalarmclock.Prelude.{
  ℕ, ◌≡◌, refl, sym, ap, ◌∙◌, ◌⊎◌, inl, inr, Option, none, some, List, [], ◌∷◌, arith, Bool-cases,
  Option-cases, subst,
}
use videoalarmclock.Alarm.Model.{AlarmConfig}
use videoalarmclock.Alarm.Libc.{Calendar}
use videoalarmclock.Alarm.Occurrence.{occurs_in}
use videoalarmclock.Alarm.Occurrence.Ticks.{occurs_in-within}
use videoalarmclock.Alarm.Slots.{first_from, list_first_in}

quiet_not_ringing : {o : Option ℤ} {u : ℤ} → o ≡ none → o ≡ some u → ⊥
quiet_not_ringing quiet rings = absurd (cc)

one_value : {A : Type 0} {o : Option A} {x y : A} → o ≡ some x → o ≡ some y → x ≡ y
one_value p q = cc

module _ (c : Calendar) (after until : ℤ) where
  -- no alarm of the list occurs before `when`
  abbrev pub NotBefore : ℤ → List AlarmConfig → Type 0
  NotBefore when [] = Unit
  NotBefore when (a ∷ alarms) =
      ((v : ℤ) → occurs_in c (some a) after until ≡ some v → when ≤ℤ v) × NotBefore when alarms

  -- no alarm of the list occurs at all
  abbrev pub Silent : List AlarmConfig → Type 0
  Silent [] = Unit
  Silent (a ∷ alarms) = (occurs_in c (some a) after until ≡ none) × Silent alarms

  -- one of the list has the id and occurs at `when`
  abbrev pub Occurs : ℤ → ℕ → List AlarmConfig → Type 0
  Occurs when id [] = ⊥
  Occurs when id (a ∷ alarms) =
      ((a.id ≡ id) × (occurs_in c (some a) after until ≡ some when)) ⊎ Occurs when id alarms

  -- the pair that is left once a list has been gone through from a given one
  record Left (alarms : List AlarmConfig) (when : ℤ) (id : ℕ) : Type 0 where
    w : ℤ
    i : ℕ
    eq : first_from c alarms after until (some (when, id)) ≡ some (w, i)
    le : w ≤ℤ when
    later : NotBefore w alarms
    origin : ((w ≡ when) × (i ≡ id)) ⊎ Occurs w i alarms

  first_from-some : (alarms : List AlarmConfig) (when : ℤ) (id : ℕ) → Left alarms when id
  unfolding first_from
  first_from-some [] when id = record {
    w = when;
    i = id;
    eq = refl;
    le = omega arith;
    later = tt;
    origin = inl (refl, refl);
  }
  first_from-some (a ∷ alarms) when id = elim (Option-cases (occurs_in c (some a) after until)) [
    | inl quiet ↦
        let l = first_from-some alarms when id in
        record {
          w = l.w;
          i = l.i;
          eq = rw quiet l.eq;
          le = l.le;
          later = (λ u e. absurd (quiet_not_ringing quiet e), l.later);
          origin = elim l.origin [ inl same ↦ inl same | inr o ↦ inr (inr o) ];
        }
    | inr (v, rings) ↦
        let same_instant : (u : ℤ) → occurs_in c (some a) after until ≡ some u → v ≡ u =
          λ u e. one_value rings e in
        elim (Bool-cases (ltb_ℤ v when)) [
          | inl sooner ↦
              let l = first_from-some alarms v a.id in
              record {
                w = l.w;
                i = l.i;
                eq = rw rings (rw sooner l.eq);
                le = ground (arith, l.le);
                later = (λ u e. rw (← same_instant u e) l.le, l.later);
                origin = elim l.origin [
                  | inl (same, same_id) ↦ inr (inl (sym same_id, rings ∙ ap some (sym same)))
                  | inr o ↦ inr (inr o)
                ];
              }
          | inr not_sooner ↦
              let l = first_from-some alarms when id in
              record {
                w = l.w;
                i = l.i;
                eq = rw rings (rw not_sooner l.eq);
                le = l.le;
                later = (λ u e. rw (← same_instant u e) (ground (arith, l.le)), l.later);
                origin = elim l.origin [ inl same ↦ inl same | inr o ↦ inr (inr o) ];
              }
        ]
  ]

  -- The search over the list answers nothing exactly when no alarm occurs in the interval; and an
  -- instant it answers is one at which the alarm of that id occurs, with none of the list before it.
  pub list_first_in-earliest :
      (alarms : List AlarmConfig)
      → ((list_first_in c alarms after until ≡ none) × Silent alarms)
        ⊎ ((w : ℤ) × (i : ℕ) × (list_first_in c alarms after until ≡ some (w, i))
            × NotBefore w alarms
            × Occurs w i alarms)
  unfolding list_first_in first_from
  list_first_in-earliest [] = inl (refl, tt)
  list_first_in-earliest (a ∷ alarms) = elim (Option-cases (occurs_in c (some a) after until)) [
    | inl quiet ↦ elim (list_first_in-earliest alarms) [
      | inl (e, silent) ↦ inl (rw quiet e, (quiet, silent))
      | inr (w, i, e, later, o) ↦
          inr (w, i, rw quiet e, (λ u e'. absurd (quiet_not_ringing quiet e'), later), inr o)
    ]
    | inr (v, rings) ↦
        let l = first_from-some alarms v a.id in
        inr (
          l.w,
          l.i,
          rw rings l.eq,
          (λ u e. rw (← one_value rings e) l.le, l.later),
          elim l.origin [
            | inl (same, same_id) ↦ inl (sym same_id, rings ∙ ap some (sym same))
            | inr o ↦ inr o
          ],
        )
  ]

  Occurs-within :
      (alarms : List AlarmConfig) (w : ℤ) (i : ℕ) → Occurs w i alarms → (after <ℤ w) × (w ≤ℤ until)
  Occurs-within [] w i o = absurd o
  Occurs-within (a ∷ alarms) w i (inl (named, rings)) =
      let r = occurs_in-within c a after until rings in (r.0, r.1)
  Occurs-within (a ∷ alarms) w i (inr o) = Occurs-within alarms w i o

  pub list_first_in-Occurs :
      (alarms : List AlarmConfig) (w : ℤ) (i : ℕ)
      → list_first_in c alarms after until ≡ some (w, i)
      → NotBefore w alarms × Occurs w i alarms
  list_first_in-Occurs alarms w i e = elim (list_first_in-earliest alarms) [
    | inl (nothing, silent) ↦ absurd (cc)
    | inr (v, j, found, later, o) ↦
        subst (λ (p : ℤ × ℕ). NotBefore p.0 alarms × Occurs p.0 p.1 alarms) (one_value found e)
          (later, o)
  ]

  pub list_first_in-within :
      (alarms : List AlarmConfig) (w : ℤ) (i : ℕ)
      → list_first_in c alarms after until ≡ some (w, i)
      → (after <ℤ w) × (w ≤ℤ until)
  list_first_in-within alarms w i e = elim (list_first_in-earliest alarms) [
    | inl (nothing, silent) ↦ absurd (cc)
    | inr (v, j, found, later, o) ↦
        subst (λ u. (after <ℤ u) × (u ≤ℤ until)) (ap (λ (p : ℤ × ℕ). p.0) (one_value found e))
          (Occurs-within alarms v j o)
  ]
