-- ===== src/OtaVersion/Rank.antt =====
-- The verdict of `nn20clock_ota_compare_versions` as an order of numbers.
use videoalarmclock.Prelude.{
  ℕ, ◌+◌, ◌-◌, ◌*◌, ◌≤◌, ◌≡◌, ◌≢◌, Bool, Option, none, some, List, [], ◌∷◌, arith, ltb,
  if◌then◌else◌, >>=-eq-some,
}
use videoalarmclock.OtaVersion.{
  parse_version, read_digits, read_component, Version, compare_versions, compare_components,
  offer_unreadable, running_unreadable, newer, not_newer, skip_v, read_dot,
}

read_digits-le :
    (value : ℕ) (text : List ℕ) {n : ℕ} {rest : List ℕ}
    → value ≤ 999999
    → read_digits value text ≡ some (n, rest)
    → n ≤ 999999
unfolding read_digits
read_digits-le value [] h e = ground arith
read_digits-le value (c ∷ text) {n} {rest} h e =
    ground (arith, read_digits-le (value * 10 + (c - b'0')) text {n = n} {rest = rest})

read_component-le :
    (text : List ℕ) {n : ℕ} {rest : List ℕ} → read_component text ≡ some (n, rest) → n ≤ 999999
unfolding read_component
read_component-le [] e = ground arith
read_component-le (c ∷ text) {n} {rest} e =
    ground (arith, read_digits-le 0 (c ∷ text) {n = n} {rest = rest} (omega arith))

-- Every component of a parsed version is below a million, so its `unsigned` never wrapped.
pub parse_version-le :
    (text : Option (List ℕ)) {v : Version} {more : Bool}
    → parse_version text ≡ some (v, more)
    → (v.major ≤ 999999) × (v.minor ≤ 999999) × (v.patch ≤ 999999)
unfolding parse_version
parse_version-le none e = ground arith
parse_version-le (some text) e =
    let (major, p, e₁) = >>=-eq-some (read_component (skip_v text)) _ e in
    let (minor_text, _, e₂) = >>=-eq-some (read_dot major.1) _ e₁ in
    let (minor, q, e₃) = >>=-eq-some (read_component minor_text) _ e₂ in
    let (patch_text, _, e₄) = >>=-eq-some (read_dot minor.1) _ e₃ in
    let (patch, r, e₅) = >>=-eq-some (read_component patch_text) _ e₄ in
    ground (
      arith,
      read_component-le (skip_v text) p,
      read_component-le minor_text q,
      read_component-le patch_text r,
    )

-- the place of a version among all that parse
abbrev pub rank : Version → ℕ
rank v = (v.major * 1000000 + v.minor) * 1000000 + v.patch

-- Of two texts that parse, the offered one is newer exactly if its version has the higher rank;
-- otherwise it is reported as not newer.
pub compare_versions-rank :
    (offered running : Option (List ℕ)) {theirs ours : Version} {more more' : Bool}
    → parse_version offered ≡ some (theirs, more)
    → parse_version running ≡ some (ours, more')
    → compare_versions offered running
      ≡ (if ltb (rank ours) (rank theirs) then newer else not_newer)
unfolding compare_versions compare_components
compare_versions-rank offered running {theirs} {ours} e e' =
    ground (arith, parse_version-le offered e, parse_version-le running e')

-- An unreadable offer is never offered, whatever runs; a readable one against an unreadable
-- running version has its own verdict.
pub compare_versions_unreadable :
    (offered running : Option (List ℕ))
    → (parse_version offered ≡ none → compare_versions offered running ≡ offer_unreadable)
      × (parse_version offered ≢ none
          → parse_version running ≡ none
          → compare_versions offered running ≡ running_unreadable)
unfolding compare_versions
compare_versions_unreadable offered running = (λ h. ground arith, λ h h'. ground arith)
