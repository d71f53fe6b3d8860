-- ===== src/ReqPool/Threads.antt =====
-- Any number of threads on one pool, a step being one atomic operation of one of them.
use videoalarmclock.Prelude.{
  ℕ, zero, suc, ◌+◌, ◌<◌, ◌≡◌, refl, Bool, true, false, ◌&&◌, not, List, [], ◌∷◌, arith, ltb, ◌==◌,
  if◌then◌else◌, length, get_or, length-set, set,
}
use videoalarmclock.ReqPool.{init, exchange, release}

-- where a thread is in `claim`, or the slot that it owns
pub data Thread : Type 0 where
  idle : Thread
  scanning : ℕ → Thread
  holding : ℕ → Thread

pub record Pool : Type 0 where
  pub flags : List Bool
  pub threads : ℕ → Thread

abbrev pub put : (ℕ → Thread) → ℕ → Thread → ℕ → Thread
put threads t x u = if u == t then x else threads u

-- one round of the loop of `claim` at slot `i`
unfoldable pub scan_at : Pool → ℕ → ℕ → Pool
unfolding exchange
scan_at p t i =
    let (old, flags') = exchange p.flags i in
    let tried : Pool = record {
      flags = flags';
      threads = put p.threads t (if not old then holding i else scanning (i + 1));
    } in
    if ltb i (length p.flags) then tried else record p { threads = put p.threads t idle }

-- What a thread does next: an idle one begins a claim, a scanning one goes on, and one that holds a
-- slot releases it.
advance : Pool → ℕ → Thread → Pool
unfolding scan_at
advance p t idle = record p { threads = put p.threads t (scanning 0) }
advance p t (scanning i) = scan_at p t i
advance p t (holding i) = record { flags = release p.flags i; threads = put p.threads t idle }

unfoldable pub step : Pool → ℕ → Pool
unfolding advance
step p t = advance p t (p.threads t)

-- a schedule is the list of the threads that move, in order
unfoldable pub run : Pool → List ℕ → Pool
run p [] = p
run p (t ∷ ts) = run (step p t) ts

-- Every slot held is marked, and no two threads hold one slot.
pub record Owned (p : Pool) : Type 0 where
  pub marked :
      (t i : ℕ) → p.threads t ≡ holding i → (i < length p.flags) × (get_or p.flags i false ≡ true)
  pub exclusive : (t u i : ℕ) → p.threads t ≡ holding i → p.threads u ≡ holding i → t ≡ u

get_or-set :
    (xs : List Bool) (i j : ℕ) (v d : Bool)
    → get_or (set xs i v) j d ≡ (if i == j && ltb i (length xs) then v else get_or xs j d)
get_or-set [] i j v d = ground arith
get_or-set (x ∷ xs) zero zero v d = ground arith
get_or-set (x ∷ xs) zero (suc j) v d = ground arith
get_or-set (x ∷ xs) (suc i) zero v d = ground arith
get_or-set (x ∷ xs) (suc i) (suc j) v d = ground (arith, get_or-set xs i j v d)

get_or_default :
    (xs : List Bool) (i : ℕ) (d d' : Bool) → i < length xs → get_or xs i d ≡ get_or xs i d'
get_or_default [] i d d' h = absurd (omega arith)
get_or_default (x ∷ xs) zero d d' h = refl
get_or_default (x ∷ xs) (suc i) d d' h = get_or_default xs i d d' (omega arith)

advance-Owned : (p : Pool) (t : ℕ) (x : Thread) → p.threads t ≡ x → Owned p → Owned (advance p t x)
unfolding advance release
advance-Owned p t idle e h = record {
  marked = λ u i hu. ground (arith, h.marked u i);
  exclusive = λ u v i hu hv. ground (arith, h.exclusive u v i);
}
advance-Owned p t (scanning k) e h = record {
  marked = λ u i hu.
      ground (arith, h.marked u i, length-set p.flags k true, get_or-set p.flags k i true false);
  exclusive = λ u v i hu hv.
      ground
        (arith, h.exclusive u v i, h.marked u i, h.marked v i, get_or_default p.flags k true false);
}
advance-Owned p t (holding k) e h = record {
  marked = λ u i hu. ground (
    arith,
    h.marked u i,
    h.exclusive t u i,
    length-set p.flags k false,
    get_or-set p.flags k i false false,
  );
  exclusive = λ u v i hu hv. ground (arith, h.exclusive u v i);
}

run-Owned : (p : Pool) (ts : List ℕ) → Owned p → Owned (run p ts)
unfolding run step
run-Owned p [] h = h
run-Owned p (t ∷ ts) h = run-Owned (step p t) ts (advance-Owned p t (p.threads t) refl h)

-- a pool of `count` slots that no thread has touched
abbrev pub fresh : ℕ → Pool
fresh count = record { flags = init count; threads = λ t. idle }

fresh-Owned : (count : ℕ) → Owned (fresh count)
fresh-Owned count = record { marked = λ t i e. absurd (cc); exclusive = λ t u i e e'. absurd (cc) }

-- Whatever the threads do, in whatever order their atomic operations come: two threads that hold one
-- slot are one thread, and a slot that is held exists and is marked as in use.
pub run-exclusive :
    (count : ℕ) (schedule : List ℕ) (t u i : ℕ)
    → (run (fresh count) schedule).threads t ≡ holding i
    → (run (fresh count) schedule).threads u ≡ holding i
    → (t ≡ u)
      × (i < length (run (fresh count) schedule).flags)
      × (get_or (run (fresh count) schedule).flags i false ≡ true)
run-exclusive count schedule t u i ht hu =
    let h = run-Owned (fresh count) schedule (fresh-Owned count) in
    (h.exclusive t u i ht hu, (h.marked t i ht).0, (h.marked t i ht).1)
