-- ===== src/Ringbuf/Wrap.antt =====
-- Positions round a ring: offsets less than one capacity apart lie at different indices.
use native.Mathlib.Decide.{dec_lt, dec_le}
use videoalarmclock.Prelude.{
  ℕ, ◌+◌, ◌-◌, ◌%◌, ◌≤◌, ◌<◌, ◌≡◌, sym, ◌∙◌, ◌≢◌, ◌⊎◌, inl, inr, arith, subst,
}
use native.Mathlib.Nat.{mod-add-mod, mod-eq_of_lt, mod-eq-sub-mod, mod-lt}

-- Steps that do not pass the end of the ring are steps of the index.
pub mod-add_of_fit : (cap a j : ℕ) → a % cap + j < cap → (a + j) % cap ≡ a % cap + j
mod-add_of_fit cap a j fit = sym (mod-add-mod a cap j) ∙ mod-eq_of_lt fit

-- Past the end the index goes on at the beginning.
pub mod-add_of_pass :
    (cap a j : ℕ) → 0 < cap → cap ≤ a % cap + j → j ≤ cap → (a + j) % cap ≡ a % cap + j - cap
mod-add_of_pass cap a j pos past short =
    sym (mod-add-mod a cap j)
    ∙ (mod-eq-sub-mod past ∙ mod-eq_of_lt (omega (arith, mod-lt a {m = cap} pos)))

-- Fewer than `cap` steps from `a` do not come back to its index.
pub mod-add-ne : (cap a k : ℕ) → 0 < k → k < cap → (a + k) % cap ≢ a % cap
mod-add-ne cap a k pos small e = elim (dec_lt (a % cap + k) cap) [
  | yes fit ↦ omega (arith, mod-add_of_fit cap a k fit)
  | no past ↦ omega (
    arith,
    mod-add_of_pass cap a k (omega arith) (omega arith) (omega arith),
    mod-lt a {m = cap} (omega arith),
  )
]

-- `n` indices from that of `p` on, short of the end, do not meet the index of an earlier `a` whose
-- window of one capacity reaches over all of them.
pub mod_apart :
    (cap a p n : ℕ)
    → a < p
    → p + n ≤ a + cap
    → p % cap + n ≤ cap
    → (a % cap < p % cap) ⊎ (p % cap + n ≤ a % cap)
mod_apart cap a p n lt reach fit = elim (dec_lt (a % cap) (p % cap)) [
  | yes before ↦ inl before
  | no from ↦ elim (dec_le (p % cap + n) (a % cap)) [
    | yes after ↦ inr after
    | no within ↦ absurd (
        mod-add-ne cap a (p + (a % cap - p % cap) - a) (omega arith) (omega arith) (
          subst (λ s. s % cap ≡ a % cap) same
            (mod-add_of_fit cap p (a % cap - p % cap) (omega arith) ∙ omega arith)))
  ]
]
  where
    same : p + (a % cap - p % cap) ≡ a + (p + (a % cap - p % cap) - a)
    same = omega arith
