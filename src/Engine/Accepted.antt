-- ===== src/Engine/Accepted.antt =====
-- Which of the chunks offered to a topic it accepts, told by times alone, without the code's tests.
use plotjuggler_core.Prelude.{
  ℕ, ◌≡◌, refl, Option, none, some, List, [], ◌∷◌, ◌++◌, last?, ◌==◌, if◌then◌else◌, ◌<ℤ◌, ◌≤ℤ◌,
}
use plotjuggler_core.Chunk.{TopicChunk}
use plotjuggler_core.Query.Committed.{InOrder, next_chunk}

-- A topic that ends with the first chunk is offered the first list and accepts the second: a chunk
-- that starts before the end of the last one held is passed over, and each other one is taken.
pub data Accepts : Option TopicChunk → List TopicChunk → List TopicChunk → Type 0 where
  no_more : (back : Option TopicChunk) → Accepts back [] []
  too_early :
      (back chunk : TopicChunk) (offered taken : List TopicChunk)
      → chunk.stats.t_min <ℤ back.stats.t_max
      → Accepts (some back) offered taken
      → Accepts (some back) (chunk ∷ offered) taken
  first_one :
      (chunk : TopicChunk) (offered taken : List TopicChunk)
      → Accepts (some chunk) offered taken
      → Accepts none (chunk ∷ offered) (chunk ∷ taken)
  later_one :
      (back chunk : TopicChunk) (offered taken : List TopicChunk)
      → back.stats.t_max ≤ℤ chunk.stats.t_min
      → Accepts (some chunk) offered taken
      → Accepts (some back) (chunk ∷ offered) (chunk ∷ taken)

-- The last chunk after some are put behind `back`.
abbrev pub last_behind : Option TopicChunk → List TopicChunk → Option TopicChunk
last_behind back [] = back
last_behind back (c ∷ cs) = last_behind (some c) cs

pub last?-append : (xs ys : List TopicChunk) → last? (xs ++ ys) ≡ last_behind (last? xs) ys
last?-append [] [] = refl
last?-append [] (y ∷ []) = refl
last?-append [] (y ∷ z ∷ ys) = last?-append [] (z ∷ ys)
last?-append (x ∷ []) [] = refl
last?-append (x ∷ []) (y ∷ ys) = last?-append [] (y ∷ ys)
last?-append (x ∷ z ∷ xs) ys = last?-append (z ∷ xs) ys

pub Accepts-append :
    {back : Option TopicChunk} {xs took ys bs : List TopicChunk}
    → Accepts back xs took
    → Accepts (last_behind back took) ys bs
    → Accepts back (xs ++ ys) (took ++ bs)
Accepts-append (no_more back) h = h
Accepts-append (too_early back c offered taken e g) h = too_early back c _ _ e (Accepts-append g h)
Accepts-append (first_one c offered taken g) h = first_one c _ _ (Accepts-append g h)
Accepts-append (later_one back c offered taken e g) h = later_one back c _ _ e (Accepts-append g h)

-- A chunk that leaves the topic in order is one that the topic accepts.
pub snoc-Accepts :
    (chunks : List TopicChunk) (chunk : TopicChunk)
    → InOrder (chunks ++ chunk ∷ [])
    → Accepts (last? chunks) (chunk ∷ []) (chunk ∷ [])
snoc-Accepts [] chunk o = first_one chunk [] [] (no_more (some chunk))
snoc-Accepts (c ∷ []) chunk (next_chunk _ _ _ k l o) =
    later_one c chunk [] [] l (no_more (some chunk))
snoc-Accepts (c ∷ d ∷ cs) chunk (next_chunk _ _ _ k l o) = snoc-Accepts (d ∷ cs) chunk o

-- The chunks of a commit that are for one topic, in the order given.
abbrev pub offered_to : ℕ → List (ℕ × TopicChunk) → List TopicChunk
offered_to tid [] = []
offered_to tid ((id, chunk) ∷ chunks) =
    (if id == tid then chunk ∷ [] else []) ++ offered_to tid chunks
