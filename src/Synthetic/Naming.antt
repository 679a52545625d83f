-- ===== src/Synthetic/Naming.antt =====
-- internal/synthetic/naming.go: the names of synthetic accounts. A text is the list of its code
-- points. strings.ToLower is the parameter `to_lower`; strconv.Itoa and strconv.Atoi are spelled
-- out for numbers that are not negative.
pub mod RoundTrip
use map_walker.Prelude.{
  ℕ, zero, suc, ◌+◌, ◌-◌, ◌*◌, ◌/◌, ◌%◌, Bool, true, false, not, ◌&&◌, ◌||◌, Option, none, some,
  List, [], ◌∷◌, ◌++◌, if◌then◌else◌, ltb, leb, ◌==◌, length, drop,
}
use map_walker.Prelude.MultiMap.{is_empty}

-- "synthetic_"
abbrev pub username_prefix : List ℕ
username_prefix = 115 ∷ 121 ∷ 110 ∷ 116 ∷ 104 ∷ 101 ∷ 116 ∷ 105 ∷ 99 ∷ 95 ∷ []

-- The decimal digits of a number, with the number itself as enough fuel.
unfoldable pub digits : ℕ → ℕ → List ℕ
digits zero n = []
digits (suc fuel) n =
    let rest = digits fuel (n / 10) in
    if ltb n 10 then (48 + n) ∷ [] else rest ++ ((48 + n % 10) ∷ [])

unfoldable pub itoa : ℕ → List ℕ
itoa n = digits (suc n) n

unfoldable pub format_username : ℕ → List ℕ
format_username account_number = username_prefix ++ itoa account_number

unfoldable pub has_prefix : List ℕ → List ℕ → Bool
has_prefix [] s = true
has_prefix (c ∷ cs) [] = false
has_prefix (c ∷ cs) (d ∷ s) = (c == d) && has_prefix cs s

unfoldable pub all_digits : List ℕ → Bool
all_digits [] = true
all_digits (c ∷ cs) = leb 48 c && leb c 57 && all_digits cs

unfoldable pub starts_with_zero : List ℕ → Bool
starts_with_zero [] = false
starts_with_zero (c ∷ cs) = c == 48

-- The value of digits behind a number.
unfoldable pub value_after : ℕ → List ℕ → ℕ
value_after n [] = n
value_after n (c ∷ cs) = value_after (n * 10 + (c - 48)) cs

-- `Atoi` of digits fails out of the range of int.
unfoldable pub atoi : List ℕ → Option ℕ
atoi cs = let n = value_after 0 cs in if ltb n 9223372036854775808 then some n else none

unfoldable pub parse_suffix : List ℕ → Option ℕ
parse_suffix suffix =
    if is_empty suffix
      || ltb 1 (length suffix) && starts_with_zero suffix
      || not (all_digits suffix)
    then none
    else elim (atoi suffix) [ none ↦ none | some n ↦ if n == 0 then none else some n ]

module _ (to_lower : List ℕ → List ℕ) where
  unfoldable pub has_reserved_prefix : List ℕ → Bool
  has_reserved_prefix username = has_prefix username_prefix (to_lower username)

  unfoldable pub parse_username : List ℕ → Option ℕ
  parse_username username =
      let lower = to_lower username in
      if has_prefix username_prefix lower
      then parse_suffix (drop (length username_prefix) lower)
      else none
