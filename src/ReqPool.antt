-- ===== src/ReqPool.antt =====
-- sources/components/nn20clock_reqpool/include/nn20clock_reqpool.h: slots claimed by an atomic
-- exchange. `flags` is the array `in_use`; its length is the field `count`.
pub mod Serial
pub mod Threads
use videoalarmclock.Prelude.{
  ℕ, zero, suc, ◌+◌, Bool, true, false, not, List, [], ◌∷◌, ltb, if◌then◌else◌, length, get_or, set,
  replicate,
}

-- `atomic_exchange_explicit(&in_use[i], true)`: the old flag, and the array after it
unfoldable pub exchange : List Bool → ℕ → Bool × List Bool
exchange flags i = (get_or flags i true, set flags i true)

-- `nn20clock_reqpool_init`
unfoldable pub init : ℕ → List Bool
init count = replicate count false

-- the rest of the scan of `claim` from slot `i` on, `todo` slots to go
unfoldable pub claim_from : ℕ → ℕ → List Bool → ℕ × List Bool
unfolding exchange
claim_from zero i flags = (i, flags)
claim_from (suc todo) i flags =
    let (old, flags') = exchange flags i in
    let rest = claim_from todo (i + 1) flags' in if not old then (i, flags') else rest

-- `nn20clock_reqpool_claim`
unfoldable pub claim : List Bool → ℕ × List Bool
unfolding claim_from
claim flags = claim_from (length flags) 0 flags

-- `nn20clock_reqpool_release`
unfoldable pub release : List Bool → ℕ → List Bool
release flags index = if ltb index (length flags) then set flags index false else flags

-- `nn20clock_reqpool_in_flight`
unfoldable pub in_flight : List Bool → ℕ
in_flight [] = 0
in_flight (used ∷ flags) = (if used then 1 else 0) + in_flight flags
