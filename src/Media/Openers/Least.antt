-- ===== src/Media/Openers/Least.antt =====
-- The next opener is the first of those that are ahead.
use videoalarmclock.Prelude.{
  ℕ, ◌≡◌, refl, sym, ap, ap₂, ◌∙◌, ◌⊎◌, inl, inr, true, false, Option, none, some, List, [], ◌∷◌,
  arith, Bool-cases, Option-cases, subst, if-split,
}
use videoalarmclock.Media.Listing.{Entry, name_after}
use videoalarmclock.Media.Openers.{
  opener_after, opener_number, is_ahead, nearer, keep_first, best_from,
}

name_after_trans :
    (a b c : List ℕ) → name_after a b ≡ true → name_after b c ≡ true → name_after a c ≡ true
unfolding name_after
name_after_trans [] b c h k = absurd (cc)
name_after_trans (x ∷ a) [] c h k = absurd (cc)
name_after_trans (x ∷ a) (y ∷ b) [] h k = refl
name_after_trans (x ∷ a) (y ∷ b) (z ∷ c) h k = ground (arith, name_after_trans a b c)

opener_after_trans :
    (l m n : ℕ) (a b c : List ℕ)
    → opener_after l a m b ≡ true
    → opener_after m b n c ≡ true
    → opener_after l a n c ≡ true
unfolding opener_after
opener_after_trans l m n a b c h k = ground (arith, name_after_trans a b c)

-- an entry that is an opener with this number, ahead of the last clip
abbrev pub Ahead : Option (ℕ × List ℕ) → ℕ → Entry → Type 0
Ahead after n e = (opener_number e ≡ some n) × (is_ahead after n e.name ≡ true)

abbrev pub Among : Entry → List Entry → Type 0
Among x [] = ⊥
Among x (e ∷ entries) = (x ≡ e) ⊎ Among x entries

-- of the entries of `S`, the first that is ahead, or that there is none
abbrev pub First : Option (ℕ × List ℕ) → (Entry → Type 0) → Option (ℕ × Entry) → Type 0
First after S none = (n : ℕ) (x : Entry) → S x → Ahead after n x → ⊥
First after S (some (m, b)) =
    S b
    × Ahead after m b
    × ((n : ℕ) (x : Entry) → S x → Ahead after n x → opener_after m b.name n x.name ≡ false)

name_after-same : (a : List ℕ) → name_after a a ≡ false
unfolding name_after
name_after-same [] = refl
name_after-same (x ∷ a) = ground (arith, name_after-same a)

opener_after-same : (n : ℕ) (a : List ℕ) → opener_after n a n a ≡ false
unfolding opener_after
opener_after-same n a = ground (arith, name_after-same a)

-- the entry that a round looks at is the same as one that is ahead
Ahead-same :
    (after : Option (ℕ × List ℕ)) (m n : ℕ) (e x : Entry)
    → x ≡ e
    → Ahead after m e
    → Ahead after n x
    → n ≡ m
Ahead-same after m n e x p a h =
    let same : some n ≡ some m = sym h.0 ∙ ap opener_number p ∙ a.0 in cc

First-skip :
    (after : Option (ℕ × List ℕ)) (S : Entry → Type 0) (e : Entry) (best : Option (ℕ × Entry))
    → ((n : ℕ) → Ahead after n e → ⊥)
    → First after S best
    → First after (λ x. S x ⊎ (x ≡ e)) best
First-skip after S e none out f = go
  where
    go : (n : ℕ) (x : Entry) → (S x ⊎ (x ≡ e)) → Ahead after n x → ⊥
    go n x (inl s) h = f n x s h
    go n x (inr p) h = out n (subst (Ahead after n) p h)
First-skip after S e (some (m, b)) out f = (inl f.0, f.1, go)
  where
    go :
        (n : ℕ) (x : Entry)
        → (S x ⊎ (x ≡ e))
        → Ahead after n x
        → opener_after m b.name n x.name ≡ false
    go n x (inl s) h = f.2 n x s h
    go n x (inr p) h = absurd (out n (subst (Ahead after n) p h))

-- An entry that is ahead is not after itself.
later-same :
    (after : Option (ℕ × List ℕ)) (m n : ℕ) (e x : Entry)
    → x ≡ e
    → Ahead after m e
    → Ahead after n x
    → opener_after m e.name n x.name ≡ false
later-same after m n e x p a h =
    ap₂ (λ k (y : Entry). opener_after m e.name k y.name) (Ahead-same after m n e x p a h) p
    ∙ opener_after-same m e.name

nearer-First :
    (after : Option (ℕ × List ℕ)) (S : Entry → Type 0) (m : ℕ) (e : Entry)
    (best : Option (ℕ × Entry))
    → Ahead after m e
    → First after S best
    → First after (λ x. S x ⊎ (x ≡ e)) (nearer m e best)
nearer-First after S m e none a f = (inr refl, a, go)
  where
    go :
        (n : ℕ) (x : Entry)
        → (S x ⊎ (x ≡ e))
        → Ahead after n x
        → opener_after m e.name n x.name ≡ false
    go n x (inl s) h = absurd (f n x s h)
    go n x (inr p) h = later-same after m n e x p a h
nearer-First after S m e (some (k, b)) a f =
    if-split (First after (λ x. S x ⊎ (x ≡ e))) (opener_after k b.name m e.name)
      (λ t. (inr refl, a, λ n x s h. closer t n x s h))
      (λ t. (inl f.0, f.1, λ n x s h. kept t n x s h))
  where
    closer :
        opener_after k b.name m e.name ≡ true
        → (n : ℕ) (x : Entry) → (S x ⊎ (x ≡ e))
        → Ahead after n x
        → opener_after m e.name n x.name ≡ false
    closer t n x (inl s) h = elim (Bool-cases (opener_after m e.name n x.name)) [
      | inl u ↦
          let both = opener_after_trans k m n b.name e.name x.name t u in
          let never = f.2 n x s h in absurd (cc)
      | inr u ↦ u
    ]
    closer t n x (inr p) h = later-same after m n e x p a h

    kept :
        opener_after k b.name m e.name ≡ false
        → (n : ℕ) (x : Entry) → (S x ⊎ (x ≡ e))
        → Ahead after n x
        → opener_after k b.name n x.name ≡ false
    kept t n x (inl s) h = f.2 n x s h
    kept t n x (inr p) h =
        ap₂ (λ j (y : Entry). opener_after k b.name j y.name) (Ahead-same after m n e x p a h) p ∙ t

keep_first-First :
    (after : Option (ℕ × List ℕ)) (S : Entry → Type 0) (e : Entry) (best : Option (ℕ × Entry))
    → First after S best
    → First after (λ x. S x ⊎ (x ≡ e)) (keep_first after e best)
unfolding keep_first
keep_first-First after S e best f = elim (Option-cases (opener_number e)) [
  | inl h ↦
      rw (keep_first, h)
        (First-skip after S e best
          (λ n a. let none_some : none ≡ some n = sym h ∙ a.0 in absurd (cc)) f)
  | inr (m, h) ↦
      rw (keep_first, h)
        (if-split (First after (λ x. S x ⊎ (x ≡ e))) (is_ahead after m e.name)
          (λ t. nearer-First after S m e best (h, t) f)
          (λ t. First-skip after S e best (behind m h t) f))
]
  where
    behind :
        (m : ℕ)
        → opener_number e ≡ some m
        → is_ahead after m e.name ≡ false
        → (n : ℕ) → Ahead after n e
        → ⊥
    behind m h t n a =
        let same : some n ≡ some m = sym a.0 ∙ h in
        let number : n ≡ m = cc in
        let ahead = subst (λ k. is_ahead after k e.name ≡ true) number a.1 in absurd (cc)

pub First-iff :
    (after : Option (ℕ × List ℕ)) (S T : Entry → Type 0) (best : Option (ℕ × Entry))
    → ((x : Entry) → S x → T x)
    → ((x : Entry) → T x → S x)
    → First after S best
    → First after T best
First-iff after S T none to back f = λ n x t. f n x (back x t)
First-iff after S T (some (m, b)) to back f = (to b f.0, f.1, λ n x t. f.2 n x (back x t))

pub best_from-First :
    (after : Option (ℕ × List ℕ)) (S : Entry → Type 0) (best : Option (ℕ × Entry))
    (entries : List Entry)
    → First after S best
    → First after (λ x. S x ⊎ Among x entries) (best_from after best entries)
unfolding best_from
best_from-First after S best [] f = First-iff after S _ best (λ x s. inl s) drop f
  where
    drop : (x : Entry) → (S x ⊎ ⊥) → S x
    drop x (inl s) = s
    drop x (inr none_left) = absurd none_left
best_from-First after S best (e ∷ entries) f =
    First-iff after (λ x. (S x ⊎ (x ≡ e)) ⊎ Among x entries) (λ x. S x ⊎ Among x (e ∷ entries))
      (best_from after (keep_first after e best) entries) to back
      (best_from-First after (λ x. S x ⊎ (x ≡ e)) (keep_first after e best) entries
        (keep_first-First after S e best f))
  where
    to : (x : Entry) → ((S x ⊎ (x ≡ e)) ⊎ Among x entries) → (S x ⊎ Among x (e ∷ entries))
    to x (inl (inl s)) = inl s
    to x (inl (inr p)) = inr (inl p)
    to x (inr a) = inr (inr a)

    back : (x : Entry) → (S x ⊎ Among x (e ∷ entries)) → ((S x ⊎ (x ≡ e)) ⊎ Among x entries)
    back x (inl s) = inl (inl s)
    back x (inr (inl p)) = inl (inr p)
    back x (inr (inr a)) = inr a
