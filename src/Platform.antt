-- ===== src/Platform.antt =====
-- sources/components/nn20clock_platform/include/nn20clock_platform.h: the result codes that the
-- components return, one constructor to a macro of the host build.
use videoalarmclock.Prelude.{◌≡◌, refl, ◌≢◌, ◌⊎◌, inl, inr, Bool, true, false}

-- `esp_err_t`
pub data EspErr : Type 0 where
  esp_ok esp_fail no_mem invalid_arg invalid_state invalid_size not_found not_supported timeout :
      EspErr

-- `err == ESP_OK`
abbrev pub is_ok : EspErr → Bool
is_ok esp_ok = true
is_ok e = false

pub not_ok : (e : EspErr) → is_ok e ≡ false → e ≢ esp_ok
not_ok e h q = cc

pub is_ok_lem : (e : EspErr) → is_ok e ≡ true → e ≡ esp_ok
is_ok_lem esp_ok h = refl
is_ok_lem esp_fail h = absurd (cc)
is_ok_lem no_mem h = absurd (cc)
is_ok_lem invalid_arg h = absurd (cc)
is_ok_lem invalid_state h = absurd (cc)
is_ok_lem invalid_size h = absurd (cc)
is_ok_lem not_found h = absurd (cc)
is_ok_lem not_supported h = absurd (cc)
is_ok_lem timeout h = absurd (cc)

-- a function that returns a code and fills an out parameter if the code is ESP_OK
pub data Result {ℓ} (A : Type ℓ) : Type ℓ where
  ok : A → Result A
  err : EspErr → Result A

pub Result-cases {ℓ} :
    {A : Type ℓ} (r : Result A) → ((a : A) × (r ≡ ok a)) ⊎ ((e : EspErr) × (r ≡ err e))
Result-cases (ok a) = inl (a, refl)
Result-cases (err e) = inr (e, refl)
