-- ===== src/Synthetic/Naming/RoundTrip.antt =====
-- naming.go: ParseUsername reads what FormatUsername writes.
use map_walker.Prelude.{
  ℕ, zero, suc, ◌+◌, ◌-◌, ◌*◌, ◌/◌, ◌%◌, ◌<◌, ◌≤◌, ◌≡◌, refl, ◌∙◌, Bool, true, false, ◌&&◌, ◌||◌,
  some, List, [], ◌∷◌, ◌++◌, arith, if_cases, ltb, leb,
}
use map_walker.Prelude.MultiMap.{is_empty}
use map_walker.Synthetic.Naming.{
  digits, itoa, format_username, has_prefix, all_digits, starts_with_zero, value_after, atoi,
  parse_suffix, parse_username, has_reserved_prefix,
}

value_after-append :
    (n : ℕ) (xs : List ℕ) (d : ℕ)
    → value_after n (xs ++ (d ∷ [])) ≡ value_after n xs * 10 + (d - 48)
unfolding value_after
value_after-append n [] d = refl
value_after-append n (x ∷ xs) d = value_after-append (n * 10 + (x - 48)) xs d

all_digits-append :
    (xs : List ℕ) (d : ℕ) → all_digits (xs ++ (d ∷ [])) ≡ (all_digits xs && leb 48 d && leb d 57)
unfolding all_digits
all_digits-append [] d = ground arith
all_digits-append (x ∷ xs) d = ground (arith, all_digits-append xs d)

-- What the digits of a number are.
record AreDigits (n : ℕ) (cs : List ℕ) : Type 0 where
  value : value_after 0 cs ≡ n
  all : all_digits cs ≡ true
  some_digit : is_empty cs ≡ false
  leading : 0 < n → starts_with_zero cs ≡ false

starts_with_zero-append :
    (xs ys : List ℕ) → is_empty xs ≡ false → starts_with_zero (xs ++ ys) ≡ starts_with_zero xs
unfolding starts_with_zero
starts_with_zero-append [] ys h = cc
starts_with_zero-append (x ∷ xs) ys h = refl

is_empty-append : (xs : List ℕ) (d : ℕ) → is_empty (xs ++ (d ∷ [])) ≡ false
is_empty-append [] d = refl
is_empty-append (x ∷ xs) d = refl

one_digit : (n : ℕ) → ltb n 10 ≡ true → AreDigits n ((48 + n) ∷ [])
unfolding value_after all_digits starts_with_zero
one_digit n small = record {
  value = omega arith;
  all = ground (arith, small);
  some_digit = refl;
  leading = λ h. ground (arith, h);
}

more_digits :
    (n : ℕ) (cs : List ℕ)
    → 10 ≤ n
    → AreDigits (n / 10) cs
    → AreDigits n (cs ++ ((48 + n % 10) ∷ []))
more_digits n cs big d = record {
  value = value_after-append 0 cs (48 + n % 10) ∙ omega (arith, d.value);
  all = all_digits-append cs (48 + n % 10) ∙ ground (arith, d.all);
  some_digit = is_empty-append cs (48 + n % 10);
  leading = λ _. starts_with_zero-append cs _ d.some_digit ∙ d.leading (omega (arith, big));
}

digits-AreDigits : (fuel n : ℕ) → n < fuel → AreDigits n (digits fuel n)
unfolding digits
digits-AreDigits zero n h = absurd (omega arith)
digits-AreDigits (suc fuel) n h =
    if_cases (AreDigits n) (ltb n 10) (λ small. one_digit n small)
      (λ large.
        let big : 10 ≤ n = ground (arith, large) in
        more_digits n (digits fuel (n / 10)) big
          (digits-AreDigits fuel (n / 10) (omega (arith, big, h))))

-- The texts that are all of lower-case letters, digits and the like: none is an upper-case ASCII
-- letter, or beyond ASCII.
unfoldable pub is_plain : List ℕ → Bool
is_plain [] = true
is_plain (c ∷ cs) = (ltb c 65 || ltb 90 c && ltb c 128) && is_plain cs

all_digits-is_plain : (cs : List ℕ) → all_digits cs ≡ true → is_plain cs ≡ true
unfolding all_digits is_plain
all_digits-is_plain [] h = refl
all_digits-is_plain (c ∷ cs) h = ground (arith, all_digits-is_plain cs)

parse_suffix-AreDigits :
    (n : ℕ) (cs : List ℕ)
    → 0 < n
    → n < 9223372036854775808
    → AreDigits n cs
    → parse_suffix cs ≡ some n
unfolding parse_suffix atoi
parse_suffix-AreDigits n cs positive bound d =
    ground (arith, d.value, d.all, d.some_digit, d.leading positive, positive, bound)

-- If to_lower leaves plain texts as they are, ParseUsername reads from the name of every positive
-- account number below 2^63 this number, and the name has the reserved prefix.
pub parse_username-format_username :
    (to_lower : List ℕ → List ℕ) (n : ℕ)
    → ((s : List ℕ) → is_plain s ≡ true → to_lower s ≡ s)
    → 0 < n
    → n < 9223372036854775808
    → (parse_username to_lower (format_username n) ≡ some n)
      × (has_reserved_prefix to_lower (format_username n) ≡ true)
unfolding parse_username has_reserved_prefix format_username itoa has_prefix is_plain
parse_username-format_username to_lower n lower positive bound =
    let d = digits-AreDigits (suc n) n (omega arith) in
    let same : to_lower (format_username n) ≡ format_username n =
      lower (format_username n) (all_digits-is_plain (digits (suc n) n) d.all) in
    rw (same) (parse_suffix-AreDigits n (digits (suc n) n) positive bound d, refl)
