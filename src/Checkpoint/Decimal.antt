-- ===== src/Checkpoint/Decimal.antt =====
-- The decimal form of a `usize` is read back, and is made of digits.
use index_one.Checkpoint.Str.{usize_max, digits, to_string, parse_digits, parse_usize}
use index_one.Base.{
  Text, ℕ, zero, suc, ◌+◌, ◌-◌, ◌*◌, ◌/◌, ◌≤◌, ◌≡◌, some, [], ◌∷◌, ◌++◌, arith, All, ◌%◌, refl, ap,
  ◌∙◌, ◌≢◌, inl, inr, false, ◌==◌, Bool-cases, nat_eq, list_eq, option_eq, true,
}

-- Dividing by ten that often gives zero.
abbrev Fits : ℕ → ℕ → Type 0
Fits zero n = n ≡ 0
Fits (suc rounds) n = Fits rounds (n / 10)

abbrev pub IsDigit : ℕ → Type 0
IsDigit c = (48 ≤ c) × (c ≤ 57)

usize-Fits : (n : ℕ) → n ≤ usize_max → Fits 20 n
usize-Fits n h = omega (arith, h)

parse_digits-snoc :
    (s : Text) (acc n : ℕ) (d : ℕ)
    → parse_digits acc s ≡ some n
    → IsDigit d
    → n * 10 + (d - 48) ≤ usize_max
    → parse_digits acc (s ++ d ∷ []) ≡ some (n * 10 + (d - 48))
unfolding parse_digits
parse_digits-snoc [] acc n d read digit fits = ground (arith, read)
parse_digits-snoc (c ∷ s) acc n d read digit fits =
    ground (arith, read, parse_digits-snoc s (acc * 10 + (c - 48)) n d)

IsDigit-last : (n : ℕ) → IsDigit (48 + n % 10)
IsDigit-last n = omega arith

value_of : (n : ℕ) → n / 10 * 10 + (48 + n % 10 - 48) ≡ n
value_of n = omega arith

one_digit : (n : ℕ) → n / 10 ≡ 0 → parse_digits 0 ((48 + n % 10) ∷ []) ≡ some n
unfolding parse_digits
one_digit n h = ground (arith, h)

parse_digits-digits :
    (rounds n : ℕ)
    → Fits rounds (n / 10)
    → n ≤ usize_max
    → parse_digits 0 (digits (suc rounds) n) ≡ some n
unfolding digits
parse_digits-digits zero n fits h =
    let last : (n / 10 == 0) ≡ true = ground (arith, fits) in rw last (one_digit n fits)
parse_digits-digits (suc rounds) n fits h = elim (Bool-cases (n / 10 == 0)) [
  | inl last ↦ rw last (one_digit n (ground (arith, last)))
  | inr more ↦ rw more (
      parse_digits-snoc (digits (suc rounds) (n / 10)) 0 (n / 10) (48 + n % 10)
        (parse_digits-digits rounds (n / 10) fits (omega (arith, h))) (IsDigit-last n)
        (omega (arith, h))
      ∙ ap some (value_of n))
]

All-snoc : (xs : Text) (d : ℕ) → All IsDigit xs → IsDigit d → All IsDigit (xs ++ d ∷ [])
All-snoc [] d h digit = (digit, tt)
All-snoc (x ∷ xs) d h digit = (h.0, All-snoc xs d h.1 digit)

digits-IsDigit : (rounds n : ℕ) → All IsDigit (digits rounds n)
unfolding digits
digits-IsDigit zero n = tt
digits-IsDigit (suc rounds) n = elim (Bool-cases (n / 10 == 0)) [
  | inl last ↦ rw last (IsDigit-last n, tt)
  | inr more ↦ rw more (
      All-snoc (digits rounds (n / 10)) (48 + n % 10) (digits-IsDigit rounds (n / 10))
        (IsDigit-last n))
]

pub to_string-IsDigit : (n : ℕ) → All IsDigit (to_string n)
unfolding to_string
to_string-IsDigit n = digits-IsDigit 20 n

-- A text of digits has no sign, so it is read by the loop.
parse_usize-digits :
    (s : Text) (n : ℕ) → All IsDigit s → s ≢ [] → parse_digits 0 s ≡ some n → parse_usize s ≡ some n
unfolding parse_usize
parse_usize-digits [] n h filled read = absurd (filled refl)
parse_usize-digits (c ∷ []) n h filled read = read
parse_usize-digits (c ∷ d ∷ s) n h filled read =
    let unsigned : (c == 43) ≡ false = ground (arith, h.0) in rw unsigned read

snoc-ne-nil : (xs : Text) (d : ℕ) → xs ++ d ∷ [] ≢ []
snoc-ne-nil [] d e = cc
snoc-ne-nil (x ∷ xs) d e = cc

digits-ne-nil : (rounds n : ℕ) → digits (suc rounds) n ≢ []
unfolding digits
digits-ne-nil rounds n = elim (Bool-cases (n / 10 == 0)) [
  | inl last ↦ rw last (snoc-ne-nil [] (48 + n % 10))
  | inr more ↦ rw more (snoc-ne-nil (digits rounds (n / 10)) (48 + n % 10))
]

pub parse_usize-to_string : (n : ℕ) → n ≤ usize_max → parse_usize (to_string n) ≡ some n
unfolding to_string
parse_usize-to_string n h =
    parse_usize-digits (digits 20 n) n (digits-IsDigit 20 n) (digits-ne-nil 19 n)
      (parse_digits-digits 19 n (usize-Fits n h) h)
