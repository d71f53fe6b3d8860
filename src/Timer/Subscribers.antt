-- ===== src/Timer/Subscribers.antt =====
-- The list of subscribers against a bag of addresses.
use native.Mathlib.Decide.{dec_lt}
use videoalarmclock.Prelude.{
  ℕ, zero, suc, ◌+◌, ◌≤◌, ◌<◌, ◌≡◌, refl, sym, ap, ◌≢◌, ◌⊎◌, inl, inr, Bool, true, false, List, [],
  ◌∷◌, ◌++◌, arith, leb, ◌==◌, if◌then◌else◌, Bool-cases, length, get_or, set, length-append, subst,
  length-set,
}
use videoalarmclock.Platform.{esp_ok, EspErr, invalid_state, invalid_arg, not_found, no_mem}
use videoalarmclock.Prelude.Back.{
  unsnoc, get_or-back, get_or-front, set_past, filled, filled-append,
}
use videoalarmclock.Timer.State.{Timer, Subscriber}
use videoalarmclock.Timer.Control.{
  max_subscribers, waited, find_subscriber, subscribe_private, subscribe, unsubscribe_private,
  unsubscribe, post_result,
}

-- how often an address is in the list
unfoldable pub times : List Subscriber → ℕ → ℕ
times [] address = 0
times (s ∷ subscribers) address =
    (if s.address == address then 1 else 0) + times subscribers address

abbrev pub nobody : Subscriber
nobody = record { address = 0; has_callback = false }

-- At most eight subscribers, no address twice.
pub record IsRegistry (t : Timer) : Type 0 where
  pub capped : length t.subscribers ≤ max_subscribers
  pub once : (address : ℕ) → times t.subscribers address ≤ 1

times-append :
    (l : List Subscriber) (s : Subscriber) (a : ℕ)
    → times (l ++ s ∷ []) a ≡ times l a + (if s.address == a then 1 else 0)
unfolding times
times-append [] s a = omega arith
times-append (x ∷ l) s a = omega (arith, times-append l s a)

times-set :
    (l : List Subscriber) (k : ℕ) (s : Subscriber) (a : ℕ)
    → k < length l
    → times (set l k s) a + (if (get_or l k nobody).address == a then 1 else 0)
      ≡ times l a + (if s.address == a then 1 else 0)
unfolding times
times-set [] k s a h = absurd (omega arith)
times-set (x ∷ l) zero s a h = omega arith
times-set (x ∷ l) (suc k) s a h = omega (arith, times-set l k s a (omega arith))

find_subscriber-cases :
    (l : List Subscriber) (a : ℕ)
    → ((find_subscriber l a ≡ length l) × (times l a ≡ 0))
      ⊎ ((find_subscriber l a < length l)
          × ((get_or l (find_subscriber l a) nobody).address ≡ a)
          × (1 ≤ times l a))
unfolding find_subscriber times
find_subscriber-cases [] a = inl (refl, refl)
find_subscriber-cases (s ∷ l) a = elim (Bool-cases (s.address == a)) [
  | inl same ↦ rw same (inr (omega arith, ground arith, omega arith))
  | inr other ↦ rw other (elim (find_subscriber-cases l a) [
    | inl (end, gone) ↦ inl (ap suc end, omega (arith, gone))
    | inr (at, named, there) ↦ inr (omega (arith, at), named, omega (arith, there))
  ])
]

-- what is left once the entry at `k` is removed
times-filled :
    (l : List Subscriber) (k a : ℕ)
    → k < length l
    → (times (filled l k nobody) a + (if (get_or l k nobody).address == a then 1 else 0)
        ≡ times l a)
      × (length (filled l k nobody) + 1 ≡ length l)
times-filled [] k a h = absurd (omega arith)
times-filled (x ∷ l) k a h =
    let (front, back, e) = unsnoc x l in
    let count : length (front ++ back ∷ []) ≡ length front + 1 = length-append front (back ∷ []) in
    let bound : k < length (front ++ back ∷ []) = subst (λ u. k < length u) e h in
    subst
      (λ u.
        (times (filled u k nobody) a + (if (get_or u k nobody).address == a then 1 else 0)
          ≡ times u a)
        × (length (filled u k nobody) + 1 ≡ length u))
      (sym e)
      (rw (filled-append front back k nobody) (
        elim (dec_lt k (length front)) [
          | yes lt ↦
              rw (get_or-front front back k nobody lt)
                (omega (arith, times-set front k back a lt, times-append front back a))
          | no past ↦
              let last : k ≡ length front = omega arith in
              rw (set_past front k back (omega arith), last, get_or-back front back nobody)
                (omega (arith, times-append front back a))
        ],
        omega (arith, length-set front k back, count),
      ))

-- what a request does: all or nothing
pub record Changed (t after : Timer) (result : EspErr) (s : Subscriber) (adds : Bool) : Type 0 where
  pub registry : IsRegistry after
  pub effect :
      ((after ≡ t) × (result ≢ esp_ok))
      ⊎ ((result ≡ esp_ok)
          × ((a : ℕ)
              → times after.subscribers a
                ≡ (if s.address == a then (if adds then 1 else 0) else times t.subscribers a)))

failed :
    (t : Timer) (s : Subscriber) (adds : Bool) (result : EspErr)
    → IsRegistry t
    → result ≢ esp_ok
    → Changed t t result s adds
failed t s adds result r h = record { registry = r; effect = inl (refl, h) }

pub post_result-failed : (rc : ℕ) → rc == 0 ≡ false → post_result rc ≢ esp_ok
unfolding post_result
post_result-failed rc h = ground arith

waited-Changed :
    (t : Timer) (s : Subscriber) (adds : Bool) (rc : ℕ) (ran : Timer × EspErr)
    → IsRegistry t
    → Changed t ran.0 ran.1 s adds
    → let (after, result) = waited rc t ran in Changed t after result s adds
waited-Changed t s adds rc ran r h = elim (Bool-cases (rc == 0)) [
  | inl done ↦ rw done h
  | inr undone ↦ rw undone (failed t s adds (post_result rc) r (post_result-failed rc undone))
]

subscribe_private-Changed :
    (t : Timer) (s : Subscriber)
    → IsRegistry t
    → let (after, result) = subscribe_private t s in Changed t after result s true
unfolding subscribe_private
subscribe_private-Changed t s r = elim (find_subscriber-cases t.subscribers s.address) [
  | inr (at, named, there) ↦
      let found : find_subscriber t.subscribers s.address == length t.subscribers ≡ false =
        ground arith in
      rw found (failed t s true invalid_state r (ground arith))
  | inl (end, gone) ↦
      let absent : find_subscriber t.subscribers s.address == length t.subscribers ≡ true =
        ground arith in
      rw absent (elim (Bool-cases (leb max_subscribers (length t.subscribers))) [
        | inl full ↦ rw full (failed t s true no_mem r (ground arith))
        | inr room ↦ rw room (record {
          registry = record {
            capped = ground (arith, length-append t.subscribers (s ∷ []));
            once = λ a. ground (arith, times-append t.subscribers s a, r.once a);
          };
          effect = inr (refl, λ a. ground (arith, times-append t.subscribers s a));
        })
      ])
]

unsubscribe_private-Changed :
    (t : Timer) (s : Subscriber)
    → IsRegistry t
    → let (after, result) = unsubscribe_private t s.address in Changed t after result s false
unfolding unsubscribe_private
unsubscribe_private-Changed t s r = elim (find_subscriber-cases t.subscribers s.address) [
  | inl (end, gone) ↦
      let absent : find_subscriber t.subscribers s.address == length t.subscribers ≡ true =
        ground arith in
      rw absent (failed t s false not_found r (ground arith))
  | inr (at, named, there) ↦
      let found : find_subscriber t.subscribers s.address == length t.subscribers ≡ false =
        ground arith in
      let left = times-filled t.subscribers (find_subscriber t.subscribers s.address) in
      rw found (record {
        registry = record {
          capped = omega (arith, (left 0 at).1, r.capped);
          once = λ a. omega (arith, (left a at).0, r.once a);
        };
        effect = inr (refl, λ a. ground (arith, (left a at).0, named, there, r.once a));
      })
]

-- A request to subscribe to a list within eight entries and free of doubles, whatever the worker
-- answers to it, keeps the list so. It succeeds and makes the subscriber's address one entry, with
-- every other address as it was; or it fails and changes nothing.
pub subscribe-Changed :
    (t : Timer) (s : Subscriber) (rc : ℕ)
    → IsRegistry t
    → let (after, result) = subscribe t s rc in Changed t after result s true
unfolding subscribe
subscribe-Changed t s rc r = elim (Bool-cases s.has_callback) [
  | inr without ↦ simp without (failed t s true invalid_arg r (ground arith))
  | inl callback ↦
      simp callback
        (waited-Changed t s true rc (subscribe_private t s) r (subscribe_private-Changed t s r))
]

-- A request to unsubscribe, whatever the worker answers to it, keeps a list within eight entries
-- and free of doubles so. It succeeds and leaves no entry of the address, with every other address
-- as it was; or it fails and changes nothing.
pub unsubscribe-Changed :
    (t : Timer) (s : Subscriber) (rc : ℕ)
    → IsRegistry t
    → let (after, result) = unsubscribe t s.address rc in Changed t after result s false
unfolding unsubscribe
unsubscribe-Changed t s rc r =
    waited-Changed t s false rc (unsubscribe_private t s.address) r
      (unsubscribe_private-Changed t s r)
