-- ===== src/Monitor/Format.antt =====
-- `formatInt64` (monitor.go) on 64-bit patterns. The loop divides by 10 each round, so 20 rounds of
-- fuel are enough.
use smoothnas.Prelude.{
  ℕ, zero, suc, ◌+◌, ◌-◌, ◌*◌, ◌/◌, ◌%◌, ◌^◌, ◌≤◌, ◌<◌, ◌≡◌, refl, ◌∙◌, [], ◌∷◌, ◌++◌, arith, ltb,
  ◌==◌, if◌then◌else◌, Bool-cases, inl, inr, ap,
}
use smoothnas.Prelude.Words.{i63, i64, is_neg64}
use smoothnas.Prelude.Text.{Text, codes}
use native.Mathlib.Nat.{pow-suc}
use native.Mathlib.Decide.{dec_lt}

-- The loop `for n > 0`, digits in front of `s`.
unfoldable pub digits_loop : ℕ → ℕ → Text → Text
digits_loop zero n s = s
digits_loop (suc fuel) n s =
    let rest = digits_loop fuel (n / 10) ((48 + n % 10) ∷ s) in if ltb 0 n then rest else s

-- `n = -n` wraps, so it leaves the smallest number negative, and then `n > 0` fails at once.
unfoldable pub format_int64 : ℕ → Text
format_int64 n =
    if n == 0
    then codes "0"
    else if is_neg64 n
    then (let m = (i64 - n) % i64 in codes "-" ++ (if is_neg64 m then [] else digits_loop 20 m []))
    else digits_loop 20 n []

unfoldable pub format_int : ℕ → Text
format_int n = format_int64 n

-- A reader of decimal numbers, to state what the printer prints.
read_digits : ℕ → Text → ℕ
read_digits acc [] = acc
read_digits acc (c ∷ cs) = read_digits (acc * 10 + (c - 48)) cs

unfoldable pub read_int64 : Text → ℕ
unfolding read_digits
read_int64 [] = 0
read_int64 (c ∷ cs) = if c == b'-' then (i64 - read_digits 0 cs) % i64 else read_digits 0 (c ∷ cs)

read-digits_loop :
    (fuel n : ℕ) (s : Text) → n < 10 ^ fuel → read_digits 0 (digits_loop fuel n s) ≡ read_digits n s
unfolding digits_loop read_digits
read-digits_loop zero n s h = let e : n ≡ 0 = omega arith in rw e refl
read-digits_loop (suc fuel) n s h = elim (Bool-cases (ltb 0 n)) [
  | inr e ↦ let z : n ≡ 0 = ground arith in rw (e, z) (ground arith)
  | inl e ↦ rw e (
      read-digits_loop fuel (n / 10) ((48 + n % 10) ∷ s) (omega (arith, pow-suc 10 fuel))
      ∙ ap (λ k. read_digits k s) (omega arith))
]

-- The text does not begin with a minus sign.
abbrev HasNoSign : Text → Type 0
HasNoSign [] = Unit
HasNoSign (c ∷ cs) = 48 ≤ c

digits_loop-HasNoSign : (fuel n : ℕ) (s : Text) → HasNoSign s → HasNoSign (digits_loop fuel n s)
unfolding digits_loop
digits_loop-HasNoSign zero n s h = h
digits_loop-HasNoSign (suc fuel) n s h = elim (Bool-cases (ltb 0 n)) [
  | inr e ↦ rw e h
  | inl e ↦ rw e (digits_loop-HasNoSign fuel (n / 10) ((48 + n % 10) ∷ s) (omega arith))
]

read_unsigned : (s : Text) → HasNoSign s → read_int64 s ≡ read_digits 0 s
unfolding read_int64
read_unsigned [] h = refl
read_unsigned (c ∷ cs) h = ground arith

loop_reads : (n : ℕ) → n < i64 → read_digits 0 (digits_loop 20 n []) ≡ n
unfolding read_digits
loop_reads n h = read-digits_loop 20 n [] (omega arith)

negative_reads : (n : ℕ) → i63 < n → n < i64 → read_int64 (format_int64 n) ≡ n
unfolding format_int64 is_neg64 read_int64
negative_reads n h k = ground (arith, loop_reads (i64 - n) (omega arith))

positive_reads : (n : ℕ) → n < i63 → read_int64 (format_int64 n) ≡ n
unfolding format_int64 is_neg64
positive_reads n h = elim (Bool-cases (n == 0)) [
  | inl e ↦ let z : n ≡ 0 = ground arith in rw (e, z) (unfold read_int64 in refl)
  | inr e ↦ ground (
    arith,
    read_unsigned (digits_loop 20 n []) (digits_loop-HasNoSign 20 n [] tt),
    loop_reads n (omega arith),
  )
]

-- Every 64-bit number but the smallest is printed in decimal: reading the text back gives the number.
-- The smallest, -2 ^ 63, is printed as a minus sign with no digits, which reads as 0.
pub read-format_int64 :
    (n : ℕ) → n < i64 → read_int64 (format_int64 n) ≡ (if n == i63 then 0 else n)
read-format_int64 n h = elim (dec_lt n i63) [
  | yes below ↦ positive_reads n below ∙ ground arith
  | no above ↦ elim (dec_lt i63 n) [
    | yes k ↦ negative_reads n k h ∙ ground arith
    | no k ↦
        let e : n ≡ i63 = omega arith in
        rw e (unfold format_int64 is_neg64 read_int64 read_digits in refl)
  ]
]
