-- ===== src/Storage/Written.antt =====
-- nn20clock_storage.c: what `nvs_store` asks of NVS.
use videoalarmclock.Platform.{esp_ok, EspErr, is_ok, invalid_state, is_ok_lem}
use videoalarmclock.Prelude.{
  ℕ, ◌≡◌, sym, inl, inr, false, not, List, [], ◌∷◌, Bool-cases, subst, if-either, if-split,
}
use videoalarmclock.Storage.{Storage, Key, Data, NvsCall, blob_set, committed, called, nvs_store}

-- NVS has refused the data: to set the blob, or to commit it
pub data Refused (key : Key) (bytes : Data) (size : ℕ) (set_blob commit : EspErr)
    : EspErr → List NvsCall → Type 0 where
  unset : Refused key bytes size set_blob commit set_blob (blob_set key bytes size set_blob ∷ [])
  uncommitted :
      set_blob ≡ esp_ok
      → Refused key bytes size set_blob commit commit
          (blob_set key bytes size esp_ok ∷ committed commit ∷ [])

-- the calls of a write that NVS has taken
abbrev pub taking : Key → Data → ℕ → List NvsCall
taking key bytes size = blob_set key bytes size esp_ok ∷ committed esp_ok ∷ []

-- how a write can end
pub data Stores (key : Key) (bytes : Data) (size : ℕ) (set_blob commit : EspErr) (s : Storage)
    : Storage × EspErr → Type 0 where
  closed : Stores key bytes size set_blob commit s (s, invalid_state)
  refused :
      (e : EspErr) (calls : List NvsCall)
      → is_ok e ≡ false
      → Refused key bytes size set_blob commit e calls
      → Stores key bytes size set_blob commit s (called calls s, e)
  taken : Stores key bytes size set_blob commit s (called (taking key bytes size) s, esp_ok)

pub nvs_store-Stores :
    (key : Key) (bytes : Data) (size : ℕ) (set_blob commit : EspErr) (s : Storage)
    → Stores key bytes size set_blob commit s (nvs_store key bytes size set_blob commit s)
unfolding nvs_store
nvs_store-Stores key bytes size set_blob commit s = if-either Ends (not s.nvs_open) closed (
    if-split Ends (is_ok set_blob) (λ fine. set_on (is_ok_lem set_blob fine))
      (λ bad. refused set_blob _ bad unset))
  where
    Ends : Storage × EspErr → Type 0
    Ends = Stores key bytes size set_blob commit s

    asked : EspErr → EspErr → Storage × EspErr
    asked e c = (called (blob_set key bytes size e ∷ committed c ∷ []) s, c)

    set_on : set_blob ≡ esp_ok → Ends (asked set_blob commit)
    set_on fine =
        subst (λ e. Ends (asked e commit)) (sym fine)
          (elim (Bool-cases (is_ok commit)) [
            | inl kept ↦ subst (λ c. Ends (asked esp_ok c)) (sym (is_ok_lem commit kept)) taken
            | inr bad ↦ refused commit _ bad (uncommitted fine)
          ])
