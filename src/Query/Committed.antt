-- ===== src/Query/Committed.antt =====
-- The chunks of a topic as they are committed: each sorted, with exact statistics, and in order.
use plotjuggler_core.Prelude.{
  ℕ, zero, suc, ◌<◌, ◌≡◌, refl, ap, subst, some, List, [], ◌∷◌, arith, length, get_elem?, take, All,
  IsSorted, last?, ℤ, ◌≤ℤ◌, get_elem?-All,
}
use mathlib.Core.Option.{some-injective}
use plotjuggler_core.Chunk.{TopicChunk}
use plotjuggler_core.Query.{row_times, t_mins}

-- A committed chunk: its rows are counted, sorted, and its statistics are its first and its last
-- time. It has at least one row.
pub record IsCommitted (chunk : TopicChunk) : Type 0 where
  pub counted : length chunk.timestamps ≡ chunk.stats.row_count
  pub nonempty : 0 < chunk.stats.row_count
  pub sorted : IsSorted chunk.timestamps
  pub first : get_elem? chunk.timestamps 0 ≡ some chunk.stats.t_min
  pub last : last? chunk.timestamps ≡ some chunk.stats.t_max

-- The chunks of a topic in commit order: none starts before the one before it ended.
pub data InOrder : List TopicChunk → Type 0 where
  no_chunks : InOrder []
  one_chunk : (c : TopicChunk) → IsCommitted c → InOrder (c ∷ [])
  next_chunk :
      (c d : TopicChunk) (cs : List TopicChunk)
      → IsCommitted c
      → c.stats.t_max ≤ℤ d.stats.t_min
      → InOrder (d ∷ cs)
      → InOrder (c ∷ d ∷ cs)

take-length {ℓ} : {A : Type ℓ} (xs : List A) (n : ℕ) → length xs ≡ n → take n xs ≡ xs
take-length [] zero h = refl
take-length [] (suc n) h = refl
take-length (x ∷ xs) zero h = absurd (omega arith)
take-length (x ∷ xs) (suc n) h = ap (◌∷◌ x) (take-length xs n (omega arith))

pub row_times-timestamps : (c : TopicChunk) → IsCommitted c → row_times c ≡ c.timestamps
row_times-timestamps c h = take-length c.timestamps c.stats.row_count h.counted

-- No time of a sorted list is before the first, nor after the last.
pub first-le-get_elem? :
    (xs : List ℤ) (x y : ℤ) (i : ℕ)
    → IsSorted xs
    → get_elem? xs 0 ≡ some x
    → get_elem? xs i ≡ some y
    → x ≤ℤ y
first-le-get_elem? [] x y i s e g = absurd (cc)
first-le-get_elem? (z ∷ xs) x y zero s e g = ground arith
first-le-get_elem? (z ∷ xs) x y (suc i) s e g =
    let l = get_elem?-All (λ w. z ≤ℤ w) xs i s.0 g in ground arith

pub get_elem?-last {ℓ} :
    {A : Type ℓ} (xs : List A) {l : A} → last? xs ≡ some l → (i : ℕ) × (get_elem? xs i ≡ some l)
get_elem?-last [] e = absurd (cc)
get_elem?-last (x ∷ []) e = (0, e)
get_elem?-last (x ∷ y ∷ xs) e = let (i, g) = get_elem?-last (y ∷ xs) e in (suc i, g)

pub t_min-le-t_max : (c : TopicChunk) → IsCommitted c → c.stats.t_min ≤ℤ c.stats.t_max
t_min-le-t_max c h =
    let (i, g) = get_elem?-last c.timestamps h.last in
    first-le-get_elem? c.timestamps c.stats.t_min c.stats.t_max i h.sorted h.first g

pub InOrder-head : {c : TopicChunk} {cs : List TopicChunk} → InOrder (c ∷ cs) → IsCommitted c
InOrder-head (one_chunk c h) = h
InOrder-head (next_chunk c d cs h l o) = h

pub get_elem?-IsCommitted :
    {chunks : List TopicChunk} (i : ℕ) {c : TopicChunk}
    → InOrder chunks
    → get_elem? chunks i ≡ some c
    → IsCommitted c
get_elem?-IsCommitted i no_chunks e = absurd (cc)
get_elem?-IsCommitted zero (one_chunk c h) e = subst IsCommitted (some-injective _ _ e) h
get_elem?-IsCommitted (suc i) (one_chunk c h) e = absurd (cc)
get_elem?-IsCommitted zero (next_chunk c d cs h l o) e = subst IsCommitted (some-injective _ _ e) h
get_elem?-IsCommitted (suc i) (next_chunk c d cs h l o) e = get_elem?-IsCommitted i o e

pub t_mins-from :
    (m : ℤ) {c : TopicChunk} {cs : List TopicChunk}
    → InOrder (c ∷ cs)
    → m ≤ℤ c.stats.t_min
    → All (λ y. m ≤ℤ y) (t_mins (c ∷ cs))
t_mins-from m (one_chunk c h) l = (l, tt)
t_mins-from m (next_chunk c d cs h e o) l =
    (l, t_mins-from m o (omega (arith, l, e, t_min-le-t_max c h)))

pub t_mins-IsSorted : {chunks : List TopicChunk} → InOrder chunks → IsSorted (t_mins chunks)
t_mins-IsSorted no_chunks = tt
t_mins-IsSorted (one_chunk c h) = (tt, tt)
t_mins-IsSorted (next_chunk c d cs h e o) =
    (t_mins-from c.stats.t_min o (omega (arith, e, t_min-le-t_max c h)), t_mins-IsSorted o)
