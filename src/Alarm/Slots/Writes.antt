-- ===== src/Alarm/Slots/Writes.antt =====
-- What a write of one record does to the map from ids to alarms, and to the distinctness of ids.
use videoalarmclock.Prelude.{
  ℕ, zero, suc, ◌<◌, ◌≡◌, sym, ◌∙◌, ◌≢◌, ◌⊎◌, inl, inr, none, some, List, [], ◌∷◌, ◌++◌, arith,
  ◌==◌, if◌then◌else◌, length, set, get_or,
}
use videoalarmclock.Alarm.Model.{AlarmConfig, id_none, zeroed}
use videoalarmclock.Alarm.Slots.Search.{stored, Absent, Distinct, stored-Absent}

pub stored_absent :
    (alarms : List AlarmConfig) (id j : ℕ) → Absent id alarms → j ≡ id → stored alarms j ≡ none
stored_absent alarms id j h e = rw e (stored-Absent alarms id h)

pub Absent-get_or :
    (alarms : List AlarmConfig) (id k : ℕ)
    → Absent id alarms
    → k < length alarms
    → (get_or alarms k zeroed).id ≢ id
Absent-get_or [] id k h lt = absurd (omega arith)
Absent-get_or (a ∷ alarms) id zero h lt = h.0
Absent-get_or (a ∷ alarms) id (suc k) h lt = Absent-get_or alarms id k h.1 (omega arith)

pub Absent-set :
    (alarms : List AlarmConfig) (id k : ℕ) (b : AlarmConfig)
    → Absent id alarms
    → b.id ≢ id
    → Absent id (set alarms k b)
Absent-set [] id k b h ne = tt
Absent-set (a ∷ alarms) id zero b h ne = (ne, h.1)
Absent-set (a ∷ alarms) id (suc k) b h ne = (h.0, Absent-set alarms id k b h.1 ne)

-- Writing a record over that of the id `id`, its own id being that one or new.
pub stored-set :
    (alarms : List AlarmConfig) (k id j : ℕ) (b : AlarmConfig)
    → Distinct alarms
    → k < length alarms
    → (get_or alarms k zeroed).id ≡ id
    → (b.id ≡ id) ⊎ Absent b.id alarms
    → stored (set alarms k b) j
      ≡ (if j == b.id then some b else if j == id then none else stored alarms j)
unfolding stored
stored-set [] k id j b d lt e own = absurd (omega arith)
stored-set (a ∷ alarms) zero id j b d lt e own = ground (arith, stored_absent alarms a.id j d.1)
stored-set (a ∷ alarms) (suc k) id j b d lt e (inl same) = ground (
  arith,
  stored-set alarms k id j b d.2 (omega arith) e (inl same),
  Absent-get_or alarms a.id k d.1 (omega arith),
)
stored-set (a ∷ alarms) (suc k) id j b d lt e (inr new) = ground (
  arith,
  stored-set alarms k id j b d.2 (omega arith) e (inr new.1),
  Absent-get_or alarms a.id k d.1 (omega arith),
  new.0,
)

pub Distinct-set :
    (alarms : List AlarmConfig) (k id : ℕ) (b : AlarmConfig)
    → Distinct alarms
    → k < length alarms
    → (get_or alarms k zeroed).id ≡ id
    → b.id ≢ id_none
    → (b.id ≡ id) ⊎ Absent b.id alarms
    → Distinct (set alarms k b)
Distinct-set [] k id b d lt e some_id own = tt
Distinct-set (a ∷ alarms) zero id b d lt e some_id (inl same) = (some_id, rw (same, ← e) d.1, d.2)
Distinct-set (a ∷ alarms) zero id b d lt e some_id (inr new) = (some_id, new.1, d.2)
Distinct-set (a ∷ alarms) (suc k) id b d lt e some_id (inl same) = (
  d.0,
  Absent-set alarms a.id k b d.1
      (λ p. Absent-get_or alarms a.id k d.1 (omega arith) (e ∙ (sym same ∙ p))),
  Distinct-set alarms k id b d.2 (omega arith) e some_id (inl same),
)
Distinct-set (a ∷ alarms) (suc k) id b d lt e some_id (inr new) = (
  d.0,
  Absent-set alarms a.id k b d.1 (λ p. new.0 (sym p)),
  Distinct-set alarms k id b d.2 (omega arith) e some_id (inr new.1),
)

-- A record of a new id behind the others.
pub stored-append :
    (alarms : List AlarmConfig) (b : AlarmConfig) (j : ℕ)
    → Absent b.id alarms
    → stored (alarms ++ b ∷ []) j ≡ (if j == b.id then some b else stored alarms j)
unfolding stored
stored-append [] b j h = ground arith
stored-append (a ∷ alarms) b j h = ground (arith, stored-append alarms b j h.1, h.0)

pub Absent-append :
    (alarms : List AlarmConfig) (b : AlarmConfig) (id : ℕ)
    → Absent id alarms
    → b.id ≢ id
    → Absent id (alarms ++ b ∷ [])
Absent-append [] b id h ne = (ne, tt)
Absent-append (a ∷ alarms) b id h ne = (h.0, Absent-append alarms b id h.1 ne)

pub Distinct-append :
    (alarms : List AlarmConfig) (b : AlarmConfig)
    → Distinct alarms
    → b.id ≢ id_none
    → Absent b.id alarms
    → Distinct (alarms ++ b ∷ [])
Distinct-append [] b d ne h = (ne, tt, tt)
Distinct-append (a ∷ alarms) b d ne h =
    (d.0, Absent-append alarms b a.id d.1 (λ e. h.0 (sym e)), Distinct-append alarms b d.2 ne h.1)
