-- ===== src/Encoding/Dictionary.antt =====
-- Dictionary encoding: every row's string is read back.
use plotjuggler_core.Prelude.{
  ℕ, zero, suc, ◌+◌, ◌*◌, ◌^◌, ◌<◌, ◌≤◌, ◌≡◌, refl, ap, ◌∙◌, sym, true, false, some, Option-cases,
  inl, inr, List, [], ◌∷◌, ◌++◌, arith, length, get_elem?, get_or, ◌==◌, length-append, append-nil,
  append_assoc,
}
use plotjuggler_core.Bytes.{le_bytes, load, packed, load-packed}
use plotjuggler_core.Encoding.{
  switch_width, index_bytes_for, write_index, read_index, bytes_eqb, find_index, intern,
  intern_rows, write_indices, row_string, dictionary_encode_strings, dictionary_lookup,
}

bytes_eqb→eq : (xs ys : List ℕ) → bytes_eqb xs ys ≡ true → xs ≡ ys
bytes_eqb→eq [] [] h = refl
bytes_eqb→eq [] (y ∷ ys) h = absurd (ground arith)
bytes_eqb→eq (x ∷ xs) [] h = absurd (ground arith)
bytes_eqb→eq (x ∷ xs) (y ∷ ys) h = ground (arith, bytes_eqb→eq xs ys)

-- A string that is found stands at its index.
find_index-found :
    (dict : List (List ℕ)) (key : List ℕ) (i : ℕ)
    → find_index dict key ≡ some i
    → (i < length dict) × (get_or dict i [] ≡ key)
find_index-found [] key i h = absurd (cc)
find_index-found (s ∷ dict) key zero h = ground (arith, bytes_eqb→eq s key)
find_index-found (s ∷ dict) key (suc i) h = ground (arith, find_index-found dict key i)

get_or-append_left {ℓ} :
    {A : Type ℓ} (xs ys : List A) (i : ℕ) (d : A)
    → i < length xs
    → get_or (xs ++ ys) i d ≡ get_or xs i d
get_or-append_left [] ys i d h = absurd (omega arith)
get_or-append_left (x ∷ xs) ys zero d h = refl
get_or-append_left (x ∷ xs) ys (suc i) d h = get_or-append_left xs ys i d (omega arith)

get_or-snoc {ℓ} : {A : Type ℓ} (xs : List A) (x d : A) → get_or (xs ++ x ∷ []) (length xs) d ≡ x
get_or-snoc [] x d = refl
get_or-snoc (y ∷ xs) x d = get_or-snoc xs x d

-- What one string does to the dictionary.
record Interned (dict : List (List ℕ)) (key : List ℕ) (r : List (List ℕ) × ℕ) : Type 0 where
  more : List (List ℕ)
  extends : r.0 ≡ dict ++ more
  at_most_one : length r.0 ≤ suc (length dict)
  in_range : r.1 < length r.0
  stands : get_or r.0 r.1 [] ≡ key

intern-Interned : (dict : List (List ℕ)) (key : List ℕ) → Interned dict key (intern dict key)
intern-Interned dict key = elim (Option-cases (find_index dict key)) [
  | inl e ↦
      rw (e, intern)
        record {
          more = key ∷ [];
          extends = refl;
          at_most_one = omega (arith, length-append dict (key ∷ []));
          in_range = omega (arith, length-append dict (key ∷ []));
          stands = get_or-snoc dict key [];
        }
  | inr (i, e) ↦
      rw (e, intern)
        record {
          more = [];
          extends = sym (append-nil _);
          at_most_one = omega arith;
          in_range = (find_index-found dict key i e).0;
          stands = (find_index-found dict key i e).1;
        }
]

-- What the first pass over `n` rows does.
record Pass (string_of : ℕ → List ℕ) (n row : ℕ) (dict : List (List ℕ)) (r : List (List ℕ) × List ℕ)
    : Type 0 where
  more : List (List ℕ)
  extends : r.0 ≡ dict ++ more
  at_most : length r.0 ≤ n + length dict
  rows :
      (j : ℕ)
      → j < n
      → (k : ℕ) × (get_elem? r.1 j ≡ some k)
        × (k < length r.0)
        × (get_or r.0 k [] ≡ string_of (row + j))

-- The rows of a pass, from those of the first row and of the rest.
Pass-rows :
    (string_of : ℕ → List ℕ) (n row : ℕ) (one : List (List ℕ) × ℕ) (rest : List (List ℕ) × List ℕ)
    (dict : List (List ℕ))
    → Interned dict (string_of row) one
    → Pass string_of n (row + 1) one.0 rest
    → (j : ℕ) → j < suc n
    → (k : ℕ) × (get_elem? (one.1 ∷ rest.1) j ≡ some k)
      × (k < length rest.0)
      × (get_or rest.0 k [] ≡ string_of (row + j))
Pass-rows string_of n row one rest dict o p zero h =
    let long : one.1 < length rest.0 =
      omega (arith, o.in_range, ap (λ xs. length xs) p.extends, length-append one.0 p.more) in
    let z : row ≡ row + 0 = omega arith in
    (
      one.1,
      refl,
      long,
      ap (λ xs. get_or xs one.1 []) p.extends
          ∙ get_or-append_left one.0 p.more one.1 [] o.in_range
          ∙ o.stands
          ∙ ap string_of z,
    )
Pass-rows string_of n row one rest dict o p (suc j) h =
    let (k, e, l, s) = p.rows j (omega arith) in
    let z : row + 1 + j ≡ row + suc j = omega arith in (k, e, l, s ∙ ap string_of z)

intern_rows-Pass :
    (string_of : ℕ → List ℕ) (n row : ℕ) (dict : List (List ℕ))
    → Pass string_of n row dict (intern_rows string_of n row dict)
unfolding intern_rows
intern_rows-Pass string_of zero row dict = record {
  more = [];
  extends = sym (append-nil _);
  at_most = omega arith;
  rows = λ j h. absurd (omega arith);
}
intern_rows-Pass string_of (suc n) row dict =
    let one = intern-Interned dict (string_of row) in
    let d = (intern dict (string_of row)).0 in
    let rest = intern_rows-Pass string_of n (row + 1) d in
    record {
      more = one.more ++ rest.more;
      extends =
          rest.extends
          ∙ ap (λ xs. xs ++ rest.more) one.extends
          ∙ append_assoc dict one.more rest.more;
      at_most = omega (arith, rest.at_most, one.at_most_one);
      rows =
          Pass-rows string_of n row (intern dict (string_of row))
            (intern_rows string_of n (row + 1) d) dict one rest;
    }

write_indices-packed : (is : List ℕ) (n : ℕ) → write_indices is n ≡ packed (switch_width n) is
unfolding write_index
write_indices-packed [] n = refl
write_indices-packed (i ∷ is) n =
    ap (◌++◌ (le_bytes (switch_width n) i)) (write_indices-packed is n)

index-fits : (k size : ℕ) → k < size → size ≤ 2 ^ 32 → k < 256 ^ switch_width (index_bytes_for size)
index-fits k size h l = ground arith

-- Of at most 2^32 rows, `dictionaryLookup` after `dictionaryEncodeStrings` gives at every row the
-- string that the column's offsets and values spell there.
pub dictionary_lookup-dictionary_encode_strings :
    (offsets values : List ℕ) (row_count row : ℕ)
    → row_count ≤ 2 ^ 32
    → row < row_count
    → dictionary_lookup (dictionary_encode_strings offsets values row_count) row
      ≡ row_string offsets values row
unfolding dictionary_lookup dictionary_encode_strings read_index
dictionary_lookup-dictionary_encode_strings offsets values row_count row l h =
    let r = intern_rows (row_string offsets values) row_count 0 [] in
    let w = switch_width (index_bytes_for (length r.0)) in
    let p = intern_rows-Pass (row_string offsets values) row_count 0 [] in
    let (k, e, long, s) = p.rows row h in
    let some_rows : (row_count == 0) ≡ false = ground arith in
    let z : 0 + row ≡ row = omega arith in
    let back : load w (row * w) (write_indices r.1 (index_bytes_for (length r.0))) ≡ k =
      rw (write_indices-packed r.1 (index_bytes_for (length r.0)))
        (load-packed w row k r.1 e (index-fits k (length r.0) long (omega (arith, p.at_most)))) in
    rw (some_rows, back) (s ∙ ap (row_string offsets values) z)
