-- ===== src/ColumnBuffer/FirstNull.antt =====
-- The bitmap that the first null of a column makes.
use plotjuggler_core.Prelude.{
  ℕ, zero, suc, ◌+◌, ◌/◌, ◌%◌, ◌<◌, ◌≡◌, refl, ap, ap₂, ◌∙◌, sym, Bool, true, [], ◌∷◌, ◌++◌, length,
  arith,
}
use plotjuggler_core.Bytes.{bit_test}
use plotjuggler_core.Buffer.{BitVector, bytes_for_bits, init_valid, is_valid}
use plotjuggler_core.Buffer.Validity.{IsBytes}
use plotjuggler_core.ColumnBuffer.Validity.{
  row_flags, Tracks, get_or-replicate, length-replicate, replicate-IsBytes, trues, length-trues,
}

full_byte : (r : ℕ) → r < 8 → bit_test 255 r ≡ true
unfolding bit_test
full_byte zero h = refl
full_byte (suc zero) h = refl
full_byte (suc (suc zero)) h = refl
full_byte (suc (suc (suc zero))) h = refl
full_byte (suc (suc (suc (suc zero)))) h = refl
full_byte (suc (suc (suc (suc (suc zero))))) h = refl
full_byte (suc (suc (suc (suc (suc (suc zero)))))) h = refl
full_byte (suc (suc (suc (suc (suc (suc (suc zero))))))) h = refl
full_byte (suc (suc (suc (suc (suc (suc (suc (suc r)))))))) h = absurd (omega arith)

trues_snoc : (n : ℕ) → trues n ++ true ∷ [] ≡ true ∷ trues n
trues_snoc zero = refl
trues_snoc (suc n) = ap (◌∷◌ true) (trues_snoc n)

is_valid-init_valid : (n i : ℕ) (v : BitVector) → i < n → is_valid i (init_valid n v) ≡ true
unfolding is_valid init_valid
is_valid-init_valid n i v h =
    rw (get_or-replicate (bytes_for_bits n) 0xff (i / 8) (omega arith))
      (full_byte (i % 8) (omega arith))

row_flags-trues :
    (n : ℕ) (v : BitVector) → ((j : ℕ) → j < n → is_valid j v ≡ true) → row_flags n v ≡ trues n
row_flags-trues zero v h = refl
row_flags-trues (suc n) v h =
    ap₂ ◌++◌ (row_flags-trues n v (λ j lt. h j (omega arith)))
      (ap (λ (b : Bool). b ∷ []) (h n (omega arith)))
    ∙ trues_snoc n

init_valid-IsBytes : (n : ℕ) (v : BitVector) → IsBytes (init_valid n v).bytes
unfolding init_valid
init_valid-IsBytes n v = replicate-IsBytes (bytes_for_bits n) 0xff (omega arith)

length-init_valid : (n : ℕ) (v : BitVector) → length (init_valid n v).bytes ≡ (n + 7) / 8
unfolding init_valid
length-init_valid n v = length-replicate (bytes_for_bits n) 0xff

bit_count-init_valid : (n : ℕ) (v : BitVector) → (init_valid n v).bit_count ≡ n
unfolding init_valid
bit_count-init_valid n v = refl

-- The bitmap that the first null makes says that the rows before it are valid.
pub init_valid-Tracks : (n : ℕ) (v : BitVector) → Tracks (init_valid n v) (trues n)
init_valid-Tracks n v =
    let lt = length-trues n in
    let len = length-init_valid n v in
    record {
      bytes_small = init_valid-IsBytes n v;
      room = omega (arith, lt, len);
      bit_count = bit_count-init_valid n v ∙ sym lt;
      agree = rw lt (row_flags-trues n (init_valid n v) (λ j h. is_valid-init_valid n j v h));
    }
