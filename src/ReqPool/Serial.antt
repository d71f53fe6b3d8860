-- ===== src/ReqPool/Serial.antt =====
-- One caller at a time: which slot is claimed, and how many are in flight.
use videoalarmclock.Prelude.Back.{set_past}
use native.Mathlib.Decide.{dec_lt}
use mathlib.Core.List.{append-nil, append_assoc}
use videoalarmclock.Prelude.{
  ℕ, zero, suc, ◌+◌, ◌≤◌, ◌<◌, ◌≡◌, refl, sym, ap, ap₂, ◌∙◌, ◌↔◌, ◌⊎◌, inl, inr, Bool, true, false,
  List, [], ◌∷◌, ◌++◌, arith, ltb, if◌then◌else◌, length, lt→ltb, set, get_or, length-set, subst,
  length-append,
}
use videoalarmclock.ReqPool.{claim_from, claim, release, in_flight, exchange}

-- the first free slot, or the number of slots
pub first_free : List Bool → ℕ
first_free [] = 0
first_free (used ∷ flags) = let rest = first_free flags in if used then suc rest else 0

get_or-append :
    (xs ys : List Bool) (d : Bool) (i : ℕ) → i ≡ length xs → get_or (xs ++ ys) i d ≡ get_or ys 0 d
get_or-append xs ys d i e = rw e (at xs)
  where
    at : (xs : List Bool) → get_or (xs ++ ys) (length xs) d ≡ get_or ys 0 d
    at [] = refl
    at (x ∷ xs) = at xs

set-append : (xs ys : List Bool) (v : Bool) → set (xs ++ ys) (length xs) v ≡ xs ++ set ys 0 v
set-append [] ys v = refl
set-append (x ∷ xs) ys v = ap (λ l. x ∷ l) (set-append xs ys v)

get_at :
    (before flags : List Bool) (i : ℕ)
    → i ≡ length before
    → get_or (before ++ flags) i true ≡ get_or flags 0 true
get_at before flags i e = get_or-append before flags true i e

set_at :
    (before flags : List Bool) (i : ℕ)
    → i ≡ length before
    → set (before ++ flags) i true ≡ before ++ set flags 0 true
set_at before flags i e = rw e (set-append before flags true)

-- Behind a prefix of slots already passed over, the scan takes the first free slot of the rest.
claim_from_lem :
    (before flags : List Bool) (i : ℕ)
    → i ≡ length before
    → claim_from (length flags) i (before ++ flags)
      ≡ (i + first_free flags, before ++ set flags (first_free flags) true)
unfolding claim_from first_free exchange
claim_from_lem before [] i e = ground (arith, append-nil before)
claim_from_lem before (false ∷ flags) i e =
    rw (get_at before (false ∷ flags) i e, set_at before (false ∷ flags) i e)
      (ap (λ (k : ℕ). (k, before ++ true ∷ flags)) (omega arith))
claim_from_lem before (true ∷ flags) i e =
    rw (get_at before (true ∷ flags) i e, set_at before (true ∷ flags) i e)
      (subst
        (λ l.
          claim_from (length flags) (i + 1) l
          ≡ (i + suc (first_free flags), before ++ true ∷ set flags (first_free flags) true))
        (append_assoc before (true ∷ []) flags)
        (claim_from_lem (before ++ true ∷ []) flags (i + 1)
            (omega (arith, e, length-append before (true ∷ [])))
          ∙ ap₂ (λ (k : ℕ) l. (k, l)) (omega arith)
              (append_assoc before (true ∷ []) (set flags (first_free flags) true))))

-- A claim takes the first free slot and no other, and returns the number of slots if none is free,
-- which changes nothing.
pub claim_lem :
    (flags : List Bool) → claim flags ≡ (first_free flags, set flags (first_free flags) true)
unfolding claim
claim_lem flags =
    claim_from_lem [] flags 0 refl
    ∙ ap (λ (k : ℕ). (k, set flags (first_free flags) true)) (omega arith)

first_free_lem :
    (flags : List Bool)
    → (first_free flags ≤ length flags)
      × (first_free flags < length flags → get_or flags (first_free flags) true ≡ false)
      × (in_flight (set flags (first_free flags) true)
          ≡ (if ltb (first_free flags) (length flags) then 1 else 0) + in_flight flags)
unfolding first_free in_flight
first_free_lem [] = ground arith
first_free_lem (true ∷ flags) = ground (arith, first_free_lem flags)
first_free_lem (false ∷ flags) = ground arith

in_flight-le : (flags : List Bool) → in_flight flags ≤ length flags
unfolding in_flight
in_flight-le [] = omega arith
in_flight-le (used ∷ flags) = ground (arith, in_flight-le flags)

in_flight-free :
    (flags : List Bool) → (first_free flags < length flags) ↔ (in_flight flags < length flags)
unfolding in_flight first_free
in_flight-free [] = (λ h. h, λ h. h)
in_flight-free (true ∷ flags) =
    let ih = in_flight-free flags in
    (λ h. omega (arith, ih.0 (omega arith)), λ h. omega (arith, ih.1 (omega arith)))
in_flight-free (false ∷ flags) = (λ h. omega (arith, in_flight-le flags), λ h. omega arith)

-- While fewer slots are in flight than there are, a claim returns a slot that was free, and one more
-- is in flight after it. On a full pool it returns the number of slots and changes nothing.
pub claim_bounded :
    (flags : List Bool)
    → let (slot, flags') = claim flags in
      ((in_flight flags < length flags)
        × (slot < length flags)
        × (get_or flags slot true ≡ false)
        × (in_flight flags' ≡ in_flight flags + 1))
      ⊎ ((in_flight flags ≡ length flags) × (slot ≡ length flags) × (flags' ≡ flags))
claim_bounded flags =
    let (small, free, count) = first_free_lem flags in
    rw (claim_lem flags) (elim (dec_lt (first_free flags) (length flags)) [
      | yes lt ↦ inl ((in_flight-free flags).0 lt, lt, free lt, ground (arith, count))
      | no full ↦
          let all : ¬ (in_flight flags < length flags) = λ h. full ((in_flight-free flags).1 h) in
          inr (
            omega (arith, all, in_flight-le flags),
            omega (arith, full, small),
            set_past flags (first_free flags) true (omega (arith, full)),
          )
    ])

set-set :
    (flags : List Bool) (slot : ℕ)
    → slot < length flags
    → get_or flags slot true ≡ false
    → set (set flags slot true) slot false ≡ flags
set-set [] slot h e = absurd (omega arith)
set-set (x ∷ flags) zero h e = ap (λ b. b ∷ flags) (sym e)
set-set (x ∷ flags) (suc slot) h e = ap (λ l. x ∷ l) (set-set flags slot (omega arith) e)

-- Releasing the slot that a successful claim has just returned puts the pool back as it was.
pub release-claim :
    (flags : List Bool)
    → (claim flags).0 < length flags
    → release (claim flags).1 (claim flags).0 ≡ flags
unfolding release
release-claim flags = rw (claim_lem flags) λ h.
    let slot = first_free flags in
    rw (length-set flags slot true, lt→ltb slot (length flags) h)
      (set-set flags slot h ((first_free_lem flags).1 h))
