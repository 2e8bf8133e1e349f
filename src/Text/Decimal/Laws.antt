-- ===== src/Text/Decimal/Laws.antt =====
-- Printing and parsing a number are inverse.
use ldk_server.Prelude.{
  ℕ, zero, suc, ◌+◌, ◌-◌, ◌/◌, ◌%◌, ◌^◌, ◌≤◌, ◌<◌, ◌≡◌, refl, ◌∙◌, inl, inr, true, some, [], ◌∷◌,
  all, ltb, arith, Bool-cases, true-and, ==_iff, ◌==◌, opt_map, ap, ◌*◌, Bool,
}
use ldk_server.Prelude.Int.{ℤ, pos, negsuc, ◌≤ℤ◌, i64_max}
use ldk_server.Text.Basic.{Text, is_digit}
use ldk_server.Text.Decimal.{
  show_digits, show_nat, show_int, parse_digits, parse_number, parse_unsigned, parse_i64,
}

parse_digits-show_digits :
    (top f n : ℕ) (rest : Text)
    → n < f
    → n ≤ top
    → parse_digits top 0 (show_digits f n rest) ≡ parse_digits top n rest
unfolding show_digits parse_digits
parse_digits-show_digits top zero n rest h k = elim h [ ]
parse_digits-show_digits top (suc f) n rest h k =
    ground (arith, parse_digits-show_digits top f (n / 10) ((b'0' + n % 10) ∷ rest))

-- The first byte is a digit, and so are all that `show_digits` puts in front.
show_digits_cons :
    (f n : ℕ) (rest : Text)
    → n < f
    → (c : ℕ) × (s : Text) × (show_digits f n rest ≡ c ∷ s) × (is_digit c ≡ true)
unfolding show_digits
show_digits_cons zero n rest h = elim h [ ]
show_digits_cons (suc f) n rest h = elim (Bool-cases (ltb n 10)) [
  | inl small ↦ (b'0' + n, rest, rw (small, show_digits), ground arith)
  | inr large ↦
      rw (large, show_digits) (show_digits_cons f (n / 10) ((b'0' + n % 10) ∷ rest) (ground arith))
]

all-show_digits :
    (p : ℕ → Bool) (f n : ℕ) (rest : Text)
    → ((c : ℕ) → is_digit c ≡ true → p c ≡ true)
    → all p rest ≡ true
    → all p (show_digits f n rest) ≡ true
unfolding show_digits
all-show_digits p zero n rest d h = h
all-show_digits p (suc f) n rest d h = elim (Bool-cases (ltb n 10)) [
  | inl small ↦ rw (small, show_digits) (true-and _ _ (d (b'0' + n) (ground arith)) h)
  | inr large ↦
      rw (large, show_digits)
        (all-show_digits p f (n / 10) ((b'0' + n % 10) ∷ rest) d
          (true-and _ _ (d (b'0' + n % 10) (ground arith)) h))
]

-- Every byte of a printed number has a property that the ten digits have.
pub all-show_nat :
    (p : ℕ → Bool) (n : ℕ) → ((c : ℕ) → is_digit c ≡ true → p c ≡ true) → all p (show_nat n) ≡ true
unfolding show_nat
all-show_nat p n d = all-show_digits p (suc n) n [] d refl

-- A printed number begins with a digit.
pub show_nat-cons : (n : ℕ) → (c : ℕ) × (s : Text) × (show_nat n ≡ c ∷ s) × (is_digit c ≡ true)
unfolding show_nat
show_nat-cons n = show_digits_cons (suc n) n [] (omega arith)

module _ {c : ℕ} {s t : Text} (e : t ≡ c ∷ s) where
  parse_number-of_cons : (top : ℕ) → parse_number top t ≡ parse_digits top 0 t
  unfolding parse_number
  parse_number-of_cons top = rw e

  parse_unsigned-of_digit :
      (top : ℕ) → is_digit c ≡ true → parse_unsigned top t ≡ parse_number top t
  unfolding parse_unsigned
  parse_unsigned-of_digit top d = rw e (ground arith)

  parse_i64-of_digit : is_digit c ≡ true → parse_i64 t ≡ opt_map pos (parse_number (2 ^ 63 - 1) t)
  unfolding parse_i64
  parse_i64-of_digit d = rw e (ground arith)

parse_number-show_nat : (top n : ℕ) → n ≤ top → parse_number top (show_nat n) ≡ some n
unfolding parse_digits
parse_number-show_nat top n h =
    let (c, s, e, d) = show_nat-cons n in
    parse_number-of_cons e top
    ∙ unfold show_nat in parse_digits-show_digits top (suc n) n [] (omega arith) h

-- `n.to_string().parse()` is `Ok(n)` for every value of the type.
pub parse_unsigned-show_nat : (top n : ℕ) → n ≤ top → parse_unsigned top (show_nat n) ≡ some n
parse_unsigned-show_nat top n h =
    let (c, s, e, d) = show_nat-cons n in
    parse_unsigned-of_digit e top d ∙ parse_number-show_nat top n h

-- The same for `i64`, its least value included.
pub parse_i64-show_int :
    (z : ℤ) → negsuc (2 ^ 63 - 1) ≤ℤ z → z ≤ℤ i64_max → parse_i64 (show_int z) ≡ some z
unfolding show_int
parse_i64-show_int (pos n) h k =
    let (c, s, e, d) = show_nat-cons n in
    parse_i64-of_digit e d ∙ ap (opt_map pos) (parse_number-show_nat (2 ^ 63 - 1) n (omega arith))
parse_i64-show_int (negsuc n) h k =
    unfold parse_i64 in rw (parse_number-show_nat (2 ^ 63) (suc n) (omega arith))

-- What `parse` accepts is in the type's range.
parse_digits-le : (top n m : ℕ) (s : Text) → n ≤ top → parse_digits top n s ≡ some m → m ≤ top
unfolding parse_digits
parse_digits-le top n m [] h e = ground arith
parse_digits-le top n m (c ∷ s) h e = ground (arith, parse_digits-le top (n * 10 + (c - b'0')) m s)

parse_number-le : (top m : ℕ) (s : Text) → parse_number top s ≡ some m → m ≤ top
unfolding parse_number
parse_number-le top m [] e = cc
parse_number-le top m (c ∷ s) e = parse_digits-le top 0 m (c ∷ s) (omega arith) e

pub parse_unsigned-le : (top m : ℕ) (s : Text) → parse_unsigned top s ≡ some m → m ≤ top
unfolding parse_unsigned
parse_unsigned-le top m [] e = cc
parse_unsigned-le top m (c ∷ s) e =
    ground (arith, parse_number-le top m s, parse_number-le top m (c ∷ s))

-- What `parse` accepts has digits only, behind a possible sign.
all-of_parse_digits :
    (p : ℕ → Bool) (top n m : ℕ) (s : Text)
    → ((c : ℕ) → is_digit c ≡ true → p c ≡ true)
    → parse_digits top n s ≡ some m
    → all p s ≡ true
unfolding parse_digits
all-of_parse_digits p top n m [] d e = refl
all-of_parse_digits p top n m (c ∷ s) d e =
    let rest = all-of_parse_digits p top (n * 10 + (c - b'0')) m s d in ground (arith, d c, rest)

all-of_parse_number :
    (p : ℕ → Bool) (top m : ℕ) (s : Text)
    → ((c : ℕ) → is_digit c ≡ true → p c ≡ true)
    → parse_number top s ≡ some m
    → all p s ≡ true
unfolding parse_number
all-of_parse_number p top m [] d e = refl
all-of_parse_number p top m (c ∷ s) d e = all-of_parse_digits p top 0 m (c ∷ s) d e

pub all-of_parse_unsigned :
    (p : ℕ → Bool) (top m : ℕ) (s : Text)
    → ((c : ℕ) → is_digit c ≡ true → p c ≡ true)
    → p b'+' ≡ true
    → parse_unsigned top s ≡ some m
    → all p s ≡ true
unfolding parse_unsigned
all-of_parse_unsigned p top m [] d k e = refl
all-of_parse_unsigned p top m (c ∷ s) d k e = elim (Bool-cases (c == b'+')) [
  | inl plus ↦
      let is_plus = (==_iff c b'+').0 plus in
      rw is_plus (true-and _ _ k (all-of_parse_number p top m s d (rw plus at e)))
  | inr other ↦ all-of_parse_number p top m (c ∷ s) d (rw other at e)
]
