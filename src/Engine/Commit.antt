-- ===== src/Engine/Commit.antt =====
-- Committing chunks: which topics grow, and which are reported.
use plotjuggler_core.Prelude.{
  ℕ, ◌≡◌, refl, ap, ◌∙◌, sym, subst, inl, inr, Bool, true, false, ◌||◌, Bool-cases, Option, none,
  some, Option-cases, List, [], ◌∷◌, ◌++◌, All, last?, ◌==◌, if◌then◌else◌, append-nil,
  append_assoc, arith, ℤ, ◌<ℤ◌,
}
use plotjuggler_core.Chunk.{TopicChunk}
use plotjuggler_core.Query.Committed.{IsCommitted, InOrder}
use plotjuggler_core.TopicStorage.{Status, ok_status, overlapping_chunk, TopicStorage, append_chunk}
use plotjuggler_core.TopicStorage.Order.{append_sealed_chunk-Appended}
use plotjuggler_core.TypeRegistry.{find_id, assign_id}
use plotjuggler_core.TypeRegistry.Names.{find_id-assign_id_same, find_id-assign_id_other}
use plotjuggler_core.Engine.{DataEngine, commit_chunk, commit_loop, commit_chunks, back_is, sort}
use plotjuggler_core.Engine.Accepted.{
  Accepts, no_more, too_early, last?-append, Accepts-append, snoc-Accepts, offered_to,
}
use plotjuggler_core.Engine.Ids.{
  elem, elem-append, elem-sort, elem-unique, Increasing, sort-NonDecreasing, unique-Increasing,
}

abbrev pub is_some_chunk : List TopicChunk → Bool
is_some_chunk [] = false
is_some_chunk (c ∷ cs) = true

-- The storage `s` with chunks added behind its own.
abbrev pub with_chunks : TopicStorage → List TopicChunk → TopicStorage
with_chunks s added = record s { sealed_chunks = s.sealed_chunks ++ added }

-- A topic before and after it is offered chunks: its storage has those behind its own that it
-- accepts, still in order, and it is among the reported ones after, exactly when it was before or
-- it accepts any. An id that is no topic stays none, and is not reported.
abbrev pub Grows :
    List TopicChunk → Option TopicStorage → Option TopicStorage → Bool → Bool → Type 0
Grows offered none after before reported = (after ≡ none) × (reported ≡ before)
Grows offered (some s) after before reported =
    (added : List TopicChunk) × Accepts (last? s.sealed_chunks) offered added
    × (after ≡ some (with_chunks s added))
    × InOrder (s.sealed_chunks ++ added)
    × (reported ≡ (before || is_some_chunk added))

-- A topic's chunks are in order.
abbrev pub TopicInOrder : Option TopicStorage → Type 0
TopicInOrder none = Unit
TopicInOrder (some s) = InOrder s.sealed_chunks

-- What an append does to a storage, by its status.
data Outcome (chunk : TopicChunk) (s : TopicStorage) : TopicStorage × Status → Type 0 where
  refused :
      (back : TopicChunk) (a b : ℤ)
      → last? s.sealed_chunks ≡ some back
      → chunk.stats.t_min <ℤ back.stats.t_max
      → Outcome chunk s (s, overlapping_chunk a b)
  accepted :
      InOrder (s.sealed_chunks ++ chunk ∷ [])
      → Outcome chunk s (with_chunks s (chunk ∷ []), ok_status)

append_chunk-Outcome :
    (chunk : TopicChunk) (s : TopicStorage)
    → InOrder s.sealed_chunks
    → IsCommitted chunk
    → Outcome chunk s (append_chunk chunk s)
unfolding append_chunk
append_chunk-Outcome chunk s o h = elim (append_sealed_chunk-Appended chunk s.sealed_chunks o h) [
  | inl (back, e, early, r) ↦ rw r (refused back chunk.stats.t_min back.stats.t_max e early)
  | inr (r, o') ↦ rw r (accepted o')
]

or_false : (b : Bool) → b ≡ (b || false)
or_false true = refl
or_false false = refl

or_assoc : (p q r : Bool) → ((p || q) || r) ≡ (p || (q || r))
or_assoc true q r = refl
or_assoc false q r = refl

with_no_chunks : (s : TopicStorage) → s ≡ with_chunks s []
with_no_chunks s = rw (append-nil s.sealed_chunks)

Grows-same : (o : Option TopicStorage) (b : Bool) → TopicInOrder o → Grows [] o o b b
Grows-same none b h = (refl, refl)
Grows-same (some s) b h =
    ([], no_more _, ap some (with_no_chunks s), rw (append-nil s.sealed_chunks) h, or_false b)

-- A chunk that starts too early changes nothing.
Grows-refused :
    (chunk back : TopicChunk) (s : TopicStorage) (b : Bool)
    → InOrder s.sealed_chunks
    → last? s.sealed_chunks ≡ some back
    → chunk.stats.t_min <ℤ back.stats.t_max
    → Grows (chunk ∷ []) (some s) (some s) b b
Grows-refused chunk back s b h l early = (
  [],
  rw l (too_early back chunk [] [] early (no_more _)),
  ap some (with_no_chunks s),
  rw (append-nil s.sealed_chunks) h,
  or_false b,
)

Grows-InOrder :
    (cs : List TopicChunk) (o p : Option TopicStorage) (b c : Bool)
    → Grows cs o p b c
    → TopicInOrder p
Grows-InOrder cs none p b c (e, r) = rw e tt
Grows-InOrder cs (some s) p b c (added, t, e, o, r) = rw e o

is_some_chunk-append :
    (xs ys : List TopicChunk) → (is_some_chunk xs || is_some_chunk ys) ≡ is_some_chunk (xs ++ ys)
is_some_chunk-append [] ys = refl
is_some_chunk-append (x ∷ xs) ys = refl

Grows-then :
    (xs ys : List TopicChunk) (o p q : Option TopicStorage) (b c d : Bool)
    → Grows xs o p b c
    → Grows ys p q c d
    → Grows (xs ++ ys) o q b d
Grows-then xs ys none p q b c d (e, r) g =
    let h : Grows ys none q c d = subst (λ (x : Option TopicStorage). Grows ys x q c d) e g in
    (h.0, h.1 ∙ r)
Grows-then xs ys (some s) p q b c d (added, t, e, o, r) g =
    let h : Grows ys (some (with_chunks s added)) q c d =
      subst (λ (x : Option TopicStorage). Grows ys x q c d) e g in
    let assoc = append_assoc s.sealed_chunks added h.0 in
    let back = last?-append s.sealed_chunks added in
    (
      added ++ h.0,
      Accepts-append t (subst (λ (l : Option TopicChunk). Accepts l ys h.0) back h.1),
      h.2 ∙ ap (λ (cs : List TopicChunk). some (record s { sealed_chunks = cs })) assoc,
      subst InOrder assoc h.3,
      h.4
          ∙ ap (λ (x : Bool). x || is_some_chunk h.0) r
          ∙ or_assoc b (is_some_chunk added) (is_some_chunk h.0)
          ∙ ap (◌||◌ b) (is_some_chunk-append added h.0),
    )

-- The ids reported after a chunk of `id` is accepted.
abbrev report : ℕ → List ℕ → List ℕ
report id changed = if back_is (last? changed) id then changed else changed ++ id ∷ []

elem-last : (id : ℕ) (changed : List ℕ) → back_is (last? changed) id ≡ true → elem id changed ≡ true
elem-last id [] h = h
elem-last id (a ∷ []) h = rw h
elem-last id (a ∷ b ∷ bs) h = ap (◌||◌ (a == id)) (elem-last id (b ∷ bs) h) ∙ or_true (a == id)
  where
    or_true : (p : Bool) → (p || true) ≡ true
    or_true true = refl
    or_true false = refl

elem-report :
    (tid id : ℕ) (changed : List ℕ)
    → elem tid (report id changed) ≡ (elem tid changed || (id == tid))
elem-report tid id changed = elim (Bool-cases (back_is (last? changed) id)) [
  | inl e ↦ rw e (elim (Bool-cases (id == tid)) [
    | inl same ↦
        let eq : id ≡ tid = ground arith in
        let there : elem tid changed ≡ true =
          subst (λ (x : ℕ). elem x changed ≡ true) eq (elem-last id changed e) in
        rw there
    | inr other ↦ rw other (or_false (elem tid changed))
  ])
  | inr e ↦ rw e (
      elem-append tid changed (id ∷ []) ∙ ap (◌||◌ (elem tid changed)) (sym (or_false (id == tid))))
]

commit_chunk_unknown :
    (id : ℕ) (chunk : TopicChunk) (topics : List (ℕ × TopicStorage)) (changed : List ℕ)
    → find_id id topics ≡ none
    → commit_chunk id chunk topics changed ≡ (topics, changed)
unfolding commit_chunk
commit_chunk_unknown id chunk topics changed e = rw (e, commit_chunk)

abbrev committed_by :
    ℕ → List (ℕ × TopicStorage) → List ℕ → TopicStorage × Status → List (ℕ × TopicStorage) × List ℕ
committed_by id topics changed r = elim r.1 [
  | overlapping_chunk _ _ ↦ (topics, changed)
  | ok_status ↦ (assign_id id r.0 topics, report id changed)
]

commit_chunk_known :
    (id : ℕ) (chunk : TopicChunk) (topics : List (ℕ × TopicStorage)) (changed : List ℕ)
    (s : TopicStorage)
    → find_id id topics ≡ some s
    → commit_chunk id chunk topics changed ≡ committed_by id topics changed (append_chunk chunk s)
unfolding commit_chunk
commit_chunk_known id chunk topics changed s e = rw (e, commit_chunk)

-- What one chunk for `id` offers the topic `tid`.
abbrev one_offered : ℕ → ℕ → TopicChunk → List TopicChunk
one_offered tid id chunk = if id == tid then chunk ∷ [] else []

-- A topic after a storage has got a chunk.
assigned-Grows :
    (tid id : ℕ) (chunk : TopicChunk) (topics : List (ℕ × TopicStorage)) (changed : List ℕ)
    (s : TopicStorage)
    → find_id id topics ≡ some s
    → InOrder (s.sealed_chunks ++ chunk ∷ [])
    → TopicInOrder (find_id tid topics)
    → Grows
        (one_offered tid id chunk)
        (find_id tid topics)
        (find_id tid (assign_id id (with_chunks s (chunk ∷ [])) topics))
        (elem tid changed)
        (elem tid (report id changed))
assigned-Grows tid id chunk topics changed s e o h = elim (Bool-cases (id == tid)) [
  | inl same ↦
      let eq : id ≡ tid = ground arith in
      let there : find_id tid topics ≡ some s = subst (λ (x : ℕ). find_id x topics ≡ some s) eq e in
      let after : find_id tid (assign_id id (with_chunks s (chunk ∷ [])) topics)
          ≡ some (with_chunks s (chunk ∷ [])) =
        subst
          (λ (x : ℕ).
            find_id x (assign_id id (with_chunks s (chunk ∷ [])) topics)
            ≡ some (with_chunks s (chunk ∷ [])))
          eq (find_id-assign_id_same id (with_chunks s (chunk ∷ [])) s topics e) in
      let said = elem-report tid id changed ∙ ap (◌||◌ (elem tid changed)) same in
      rw same (
        subst
          (λ (x : Option TopicStorage).
            Grows (chunk ∷ []) x (find_id tid (assign_id id (with_chunks s (chunk ∷ [])) topics))
              (elem tid changed) (elem tid (report id changed)))
          (sym there) (chunk ∷ [], snoc-Accepts s.sealed_chunks chunk o, after, o, said))
  | inr other ↦
      let ne : (tid == id) ≡ false = ground arith in
      let kept = find_id-assign_id_other tid id (with_chunks s (chunk ∷ [])) topics ne in
      let quiet : elem tid (report id changed) ≡ elem tid changed =
        elem-report tid id changed
        ∙ ap (◌||◌ (elem tid changed)) other
        ∙ sym (or_false (elem tid changed)) in
      rw other (
        subst
          (λ (x : Option TopicStorage).
            Grows [] (find_id tid topics) x (elem tid changed) (elem tid (report id changed)))
          (sym kept)
          (subst (Grows [] (find_id tid topics) (find_id tid topics) (elem tid changed)) (sym quiet)
            (Grows-same (find_id tid topics) (elem tid changed) h)))
]

-- A topic after a chunk that changes nothing.
unchanged-Grows :
    (tid id : ℕ) (chunk : TopicChunk) (topics : List (ℕ × TopicStorage)) (b : Bool)
    → TopicInOrder (find_id tid topics)
    → (id ≡ tid → Grows (chunk ∷ []) (find_id id topics) (find_id id topics) b b)
    → Grows (one_offered tid id chunk) (find_id tid topics) (find_id tid topics) b b
unchanged-Grows tid id chunk topics b h own = elim (Bool-cases (id == tid)) [
  | inl same ↦
      let eq : id ≡ tid = ground arith in
      rw same (
        subst (λ (x : ℕ). Grows (chunk ∷ []) (find_id x topics) (find_id x topics) b b) eq (own eq))
  | inr other ↦ rw other (Grows-same (find_id tid topics) b h)
]

-- Every topic is in order.
abbrev pub AllTopicsInOrder : List (ℕ × TopicStorage) → Type 0
AllTopicsInOrder topics = (tid : ℕ) → TopicInOrder (find_id tid topics)

commit_chunk-Grows :
    (tid id : ℕ) (chunk : TopicChunk) (topics : List (ℕ × TopicStorage)) (changed : List ℕ)
    → AllTopicsInOrder topics
    → IsCommitted chunk
    → Grows
        (one_offered tid id chunk)
        (find_id tid topics)
        (find_id tid (commit_chunk id chunk topics changed).0)
        (elem tid changed)
        (elem tid (commit_chunk id chunk topics changed).1)
commit_chunk-Grows tid id chunk topics changed h k = elim (Option-cases (find_id id topics)) [
  | inl e ↦
      rw (commit_chunk_unknown id chunk topics changed e)
        (unchanged-Grows tid id chunk topics (elem tid changed) (h tid) (λ same. rw e (refl, refl)))
  | inr (s, e) ↦
      let o : InOrder s.sealed_chunks = subst TopicInOrder e (h id) in
      rw (commit_chunk_known id chunk topics changed s e)
        (by_outcome s e o (append_chunk chunk s) (append_chunk-Outcome chunk s o k))
]
  where
    by_outcome :
        (s : TopicStorage)
        → find_id id topics ≡ some s
        → InOrder s.sealed_chunks
        → (r : TopicStorage × Status) → Outcome chunk s r
        → Grows
            (one_offered tid id chunk)
            (find_id tid topics)
            (find_id tid (committed_by id topics changed r).0)
            (elem tid changed)
            (elem tid (committed_by id topics changed r).1)
    by_outcome s e o r (refused back a b l early) =
        unchanged-Grows tid id chunk topics (elem tid changed) (h tid)
          (λ same. rw e (Grows-refused chunk back s (elem tid changed) o l early))
    by_outcome s e o r (accepted o') = assigned-Grows tid id chunk topics changed s e o' (h tid)

commit_loop-Grows :
    (tid : ℕ) (chunks : List (ℕ × TopicChunk)) (topics : List (ℕ × TopicStorage)) (changed : List ℕ)
    → AllTopicsInOrder topics
    → All (λ (c : ℕ × TopicChunk). IsCommitted c.1) chunks
    → Grows
        (offered_to tid chunks)
        (find_id tid topics)
        (find_id tid (commit_loop chunks topics changed).0)
        (elem tid changed)
        (elem tid (commit_loop chunks topics changed).1)
unfolding commit_loop
commit_loop-Grows tid [] topics changed h k =
    Grows-same (find_id tid topics) (elem tid changed) (h tid)
commit_loop-Grows tid ((id, chunk) ∷ chunks) topics changed h k =
    let r = commit_chunk id chunk topics changed in
    let next : AllTopicsInOrder r.0 = λ j.
      Grows-InOrder _ (find_id j topics) (find_id j r.0) (elem j changed) (elem j r.1)
        (commit_chunk-Grows j id chunk topics changed h k.0) in
    Grows-then _ (offered_to tid chunks) (find_id tid topics) (find_id tid r.0) _ (elem tid changed)
      (elem tid r.1) _ (commit_chunk-Grows tid id chunk topics changed h k.0)
      (commit_loop-Grows tid chunks r.0 r.1 next k.1)

-- Committing chunks that are each well-formed to an engine whose topics have their chunks in
-- order: the ids reported are increasing, so that none is reported twice; every topic keeps its
-- chunks and gets behind them, of the chunks given for it, exactly those that do not start before
-- the end of the last one that it then holds, still in order; and it is reported exactly when it
-- got any. No topic comes or goes.
pub commit_chunks-Grows :
    (chunks : List (ℕ × TopicChunk)) (e : DataEngine)
    → AllTopicsInOrder e.topics
    → All (λ (c : ℕ × TopicChunk). IsCommitted c.1) chunks
    → Increasing (commit_chunks chunks e).1
      × ((tid : ℕ)
          → Grows
              (offered_to tid chunks)
              (find_id tid e.topics)
              (find_id tid (commit_chunks chunks e).0.topics)
              false
              (elem tid (commit_chunks chunks e).1))
unfolding commit_chunks
commit_chunks-Grows chunks e h k =
    let r = commit_loop chunks e.topics [] in
    (
      unique-Increasing (sort r.1) (sort-NonDecreasing r.1),
      λ tid.
          subst (Grows (offered_to tid chunks) (find_id tid e.topics) (find_id tid r.0) false)
            (sym (elem-unique tid (sort r.1) ∙ elem-sort tid r.1))
            (commit_loop-Grows tid chunks e.topics [] h k),
    )
