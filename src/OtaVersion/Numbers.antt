-- ===== src/OtaVersion/Numbers.antt =====
-- Which texts `nn20clock_ota_parse_version` reads, and as what.
use native.Mathlib.Decide.{dec_lt, dec_le}
use videoalarmclock.Prelude.{
  ℕ, ◌+◌, ◌-◌, ◌*◌, ◌≤◌, ◌<◌, ◌≡◌, refl, ◌⊎◌, true, false, none, some, List, [], ◌∷◌, ◌++◌, arith,
}
use videoalarmclock.Prelude.Bytes.{is_digit}
use videoalarmclock.OtaVersion.{
  component_max, read_digits, skip_v, read_component, parse_version, read_dot, extra,
}

-- a decimal numeral read from the left, behind a number already read
abbrev pub numeral_from : ℕ → List ℕ → ℕ
numeral_from value [] = value
numeral_from value (d ∷ ds) = numeral_from (value * 10 + (d - b'0')) ds

abbrev pub numeral : List ℕ → ℕ
numeral = numeral_from 0

abbrev pub AllDigits : List ℕ → Type 0
AllDigits [] = Unit
AllDigits (d ∷ ds) = (is_digit d ≡ true) × AllDigits ds

-- a nonempty run of digits
abbrev pub IsNumeral : List ℕ → Type 0
IsNumeral [] = ⊥
IsNumeral (d ∷ ds) = AllDigits (d ∷ ds)

-- the text does not go on with a digit
abbrev pub EndsNumber : List ℕ → Type 0
EndsNumber [] = Unit
EndsNumber (c ∷ cs) = is_digit c ≡ false

numeral_from-le : (value : ℕ) (ds : List ℕ) → value ≤ numeral_from value ds
numeral_from-le value [] = omega arith
numeral_from-le value (d ∷ ds) = omega (arith, numeral_from-le (value * 10 + (d - b'0')) ds)

-- A number below ten million is read to its end, without wrapping, if it is below a million.
read_digits-append :
    (value : ℕ) (ds rest : List ℕ)
    → AllDigits ds
    → EndsNumber rest
    → numeral_from value ds ≤ 999999
    → read_digits value (ds ++ rest) ≡ some (numeral_from value ds, rest)
unfolding read_digits
read_digits-append value [] [] h e le = refl
read_digits-append value [] (c ∷ cs) h e le = ground arith
read_digits-append value (d ∷ ds) rest h e le = ground (
  arith,
  numeral_from-le (value * 10 + (d - b'0')) ds,
  read_digits-append (value * 10 + (d - b'0')) ds rest h.1 e le,
)

read_digits_large :
    (value : ℕ) (ds rest : List ℕ)
    → AllDigits ds
    → value ≤ 999999
    → 1000000 ≤ numeral_from value ds
    → read_digits value (ds ++ rest) ≡ none
unfolding read_digits
read_digits_large value [] rest h v le = absurd (omega arith)
read_digits_large value (d ∷ ds) rest h v le = elim (dec_lt component_max value) [
  | yes big ↦ ground arith
  | no small ↦ ground (arith, read_digits_large (value * 10 + (d - b'0')) ds rest h.1)
]

-- the text of a version: an optional `v`, three numerals with dots between them, and the rest
abbrev pub version_text : List ℕ → List ℕ → List ℕ → List ℕ → List ℕ
version_text a b c rest = a ++ b'.' ∷ (b ++ b'.' ∷ (c ++ rest))

read_component-append :
    (ds rest : List ℕ)
    → IsNumeral ds
    → EndsNumber rest
    → numeral ds ≤ 999999
    → read_component (ds ++ rest) ≡ some (numeral ds, rest)
unfolding read_component
read_component-append [] rest h e le = absurd h
read_component-append (d ∷ ds) rest h e le =
    ground (arith, read_digits-append 0 (d ∷ ds) rest h e le)

read_component_large :
    (ds rest : List ℕ) → IsNumeral ds → 1000000 ≤ numeral ds → read_component (ds ++ rest) ≡ none
unfolding read_component
read_component_large [] rest h le = absurd h
read_component_large (d ∷ ds) rest h le =
    ground (arith, read_digits_large 0 (d ∷ ds) rest h (omega arith) le)

skip_v-numeral : (ds rest : List ℕ) → IsNumeral ds → skip_v (ds ++ rest) ≡ ds ++ rest
unfolding skip_v
skip_v-numeral [] rest h = absurd h
skip_v-numeral (d ∷ ds) rest h = ground arith

skip_v-v : (text : List ℕ) → skip_v (b'v' ∷ text) ≡ text
unfolding skip_v
skip_v-v text = refl

module _ (a b c rest : List ℕ) (ha : IsNumeral a) (hb : IsNumeral b) (hc : IsNumeral c)
    (ends : EndsNumber rest) where
  -- Three nonempty runs of digits with dots between them, each of a value below a million, and a
  -- rest that does not go on with a digit, are read as their values, with or without the `v`; the
  -- flag says whether anything follows.
  pub parse_version-text :
      numeral a ≤ 999999
      → numeral b ≤ 999999
      → numeral c ≤ 999999
      → (parse_version (some (version_text a b c rest))
          ≡ some (record { major = numeral a; minor = numeral b; patch = numeral c }, extra rest))
        × (parse_version (some (b'v' ∷ version_text a b c rest))
            ≡ parse_version (some (version_text a b c rest)))
  unfolding parse_version read_dot
  parse_version-text la lb lc = (
    rw (skip_v-numeral a minor_text ha, read_component-append a minor_text ha refl la) rw
        (read_component-append b patch_text hb refl lb) rw (read_component-append c rest hc ends lc)
        refl,
    rw (skip_v-v (a ++ minor_text), skip_v-numeral a minor_text ha) refl,
  )
    where
      patch_text : List ℕ
      patch_text = b'.' ∷ (c ++ rest)

      minor_text : List ℕ
      minor_text = b'.' ∷ (b ++ patch_text)

  -- A text of three nonempty runs of digits with dots between them, and a rest that does not go on
  -- with a digit, is refused if one of the three numbers is a million or more.
  pub parse_version-large :
      (999999 < numeral a) ⊎ (999999 < numeral b) ⊎ (999999 < numeral c)
      → parse_version (some (version_text a b c rest)) ≡ none
  unfolding parse_version read_dot
  parse_version-large big = elim (dec_le (numeral a) 999999) [
    | no la ↦ ground (arith, first, read_component_large a minor_text ha (omega arith))
    | yes la ↦ elim (dec_le (numeral b) 999999) [
      | no lb ↦ ground (
        arith,
        first,
        read_component-append a minor_text ha refl la,
        read_component_large b patch_text hb (omega arith),
      )
      | yes lb ↦ ground (
        arith,
        first,
        read_component-append a minor_text ha refl la,
        read_component-append b patch_text hb refl lb,
        read_component_large c rest hc (omega arith),
      )
    ]
  ]
    where
      patch_text : List ℕ
      patch_text = b'.' ∷ (c ++ rest)

      minor_text : List ℕ
      minor_text = b'.' ∷ (b ++ patch_text)

      first : skip_v (a ++ minor_text) ≡ a ++ minor_text
      first = skip_v-numeral a minor_text ha
