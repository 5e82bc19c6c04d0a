-- ===== src/Wire/Varint.antt =====
-- What `appendVarint` writes, `readVarint` reads.
use native.Mathlib.Nat.{pow-succ', add-mul, mul_assoc}
use plotjuggler_core.Prelude.{
  ℕ, zero, suc, ◌+◌, ◌*◌, ◌/◌, ◌%◌, ◌^◌, ◌<◌, ◌≡◌, ap, ◌∙◌, sym, some, List, ◌++◌, arith, ltb, leb,
  ◌==◌, Bool-cases, ◌&&◌, subst, inl, inr, true, false,
}
use plotjuggler_core.Wire.Writer.{varint_bytes, append_varint}
use plotjuggler_core.Wire.Reader.{varint_from, read_varint}

split_mul : (v w : ℕ) → v * w ≡ v % 128 * w + v / 128 * (128 * w)
split_mul v w =
    let parts : v ≡ v % 128 + v / 128 * 128 = omega arith in
    ap (λ (x : ℕ). x * w) parts
    ∙ add-mul (v % 128) (v / 128 * 128) w
    ∙ ap (◌+◌ (v % 128 * w)) (mul_assoc (v / 128) 128 w)

shift_step : (s : ℕ) → 2 ^ (s + 7) ≡ 128 * 2 ^ s
shift_step s =
    let e : s + 7 ≡ suc (suc (suc (suc (suc (suc (suc s)))))) = omega arith in rw e (omega arith)

-- At shift 63 only the last bit of a 64-bit value is left.
payload_fits : (v s : ℕ) → v * 2 ^ s < 2 ^ 64 → ((s == 63) && ltb 1 (v % 128)) ≡ false
payload_fits v s fits = elim (Bool-cases (s == 63)) [
  | inl e ↦
      let z : s ≡ 63 = ground arith in
      let f : v * 2 ^ 63 < 2 ^ 64 = subst (λ (k : ℕ). v * 2 ^ k < 2 ^ 64) z fits in ground arith
  | inr e ↦ rw e
]

last_group :
    (v s out : ℕ) (rest : List ℕ) (n : ℕ)
    → leb 128 v ≡ false
    → v * 2 ^ s < 2 ^ 64
    → varint_from (suc n) s out (varint_bytes (suc n) v ++ rest) ≡ (some (out + v * 2 ^ s), rest)
unfolding varint_from varint_bytes
last_group v s out rest n e fits =
    let small : v % 128 ≡ v = ground arith in
    let l : ltb v 128 ≡ true = ground arith in rw (e, payload_fits v s fits, l, small)

more_groups :
    (v s out : ℕ) (rest : List ℕ) (n : ℕ)
    → leb 128 v ≡ true
    → v * 2 ^ s < 2 ^ 64
    → varint_from (suc n) s out (varint_bytes (suc n) v ++ rest)
      ≡ varint_from n (s + 7) (out + v % 128 * 2 ^ s) (varint_bytes n (v / 128) ++ rest)
unfolding varint_from varint_bytes
more_groups v s out rest n e fits =
    let m : (v % 128 + 128) % 128 ≡ v % 128 = omega arith in
    let l : ltb (v % 128 + 128) 128 ≡ false = ground arith in rw (e, m, payload_fits v s fits, l)

varint_from-varint_bytes :
    (n v s out : ℕ) (rest : List ℕ)
    → v < 128 ^ suc n
    → v * 2 ^ s < 2 ^ 64
    → varint_from (suc n) s out (varint_bytes (suc n) v ++ rest) ≡ (some (out + v * 2 ^ s), rest)
varint_from-varint_bytes zero v s out rest h fits = last_group v s out rest zero (ground arith) fits
varint_from-varint_bytes (suc n) v s out rest h fits = elim (Bool-cases (leb 128 v)) [
  | inl e ↦
      let total : v * 2 ^ s ≡ v % 128 * 2 ^ s + v / 128 * 2 ^ (s + 7) =
        split_mul v (2 ^ s) ∙ ap (λ (w : ℕ). v % 128 * 2 ^ s + v / 128 * w) (sym (shift_step s)) in
      more_groups v s out rest (suc n) e fits
      ∙ varint_from-varint_bytes n (v / 128) (s + 7) (out + v % 128 * 2 ^ s) rest
          (omega (arith, pow-succ' 128 (suc n))) (omega (arith, total))
      ∙ ap (λ (x : ℕ). (some x, rest)) (omega (arith, total))
  | inr e ↦ last_group v s out rest (suc n) e fits
]

-- `readVarint` reads back any 64-bit value that `appendVarint` wrote, whatever follows it.
pub read_varint-append_varint :
    (v : ℕ) (rest : List ℕ) → v < 2 ^ 64 → read_varint (append_varint v ++ rest) ≡ (some v, rest)
unfolding read_varint append_varint
read_varint-append_varint v rest h =
    varint_from-varint_bytes 9 v 0 0 rest (omega arith) (omega arith)
    ∙ ap (λ (x : ℕ). (some x, rest)) (omega arith)
