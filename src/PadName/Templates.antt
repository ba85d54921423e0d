-- ===== src/PadName/Templates.antt =====
-- src/impl/pipeline.cpp, `match_pad_name`: what a name without a template and what `%u` at the end of
-- a name match.
use conference_go_client.Common.{
  ℕ, ◌==◌, ◌≡◌, refl, Bool, true, false, not, ◌&&◌, List, [], ◌∷◌, ◌++◌, arith,
}
use conference_go_client.PadName.{isdigit, round, match_from, no_flags, match_pad_name}

-- The same bytes.
abbrev pub same : List ℕ → List ℕ → Bool
same [] [] = true
same [] (y ∷ ys) = false
same (x ∷ xs) [] = false
same (x ∷ xs) (y ∷ ys) = x == y && same xs ys

-- No `%`.
abbrev pub is_plain : List ℕ → Bool
is_plain [] = true
is_plain (x ∷ xs) = not (x == b'%') && is_plain xs

abbrev pub all_digits : List ℕ → Bool
all_digits [] = true
all_digits (x ∷ xs) = isdigit x && all_digits xs

-- A number: digits, at least one.
abbrev pub is_number : List ℕ → Bool
is_number [] = false
is_number (x ∷ xs) = isdigit x && all_digits xs

-- The prefix, then a number.
abbrev pub is_numbered : List ℕ → List ℕ → Bool
is_numbered [] ys = is_number ys
is_numbered (x ∷ xs) [] = false
is_numbered (x ∷ xs) (y ∷ ys) = x == y && is_numbered xs ys

plain_same :
    (xs ys : List ℕ)
    → is_plain xs ≡ true
    → is_plain ys ≡ true
    → match_from no_flags xs ys ≡ same xs ys
unfolding match_from round
plain_same [] [] h k = refl
plain_same [] (y ∷ ys) h k = refl
plain_same (x ∷ xs) [] h k = refl
plain_same (x ∷ xs) (y ∷ ys) h k = ground (arith, plain_same xs ys)

-- In the template, past `u`.
in_digits : (ys : List ℕ) → match_from (record { f1 = 2; f2 = 0 }) (b'u' ∷ []) ys ≡ all_digits ys
unfolding match_from round
in_digits [] = refl
in_digits (y ∷ ys) = ground (arith, in_digits ys)

after_digit : (ys : List ℕ) → match_from (record { f1 = 1; f2 = 0 }) (b'u' ∷ []) ys ≡ all_digits ys
unfolding match_from round
after_digit [] = refl
after_digit (y ∷ ys) = ground (arith, in_digits ys)

numbered :
    (xs ys : List ℕ)
    → is_plain xs ≡ true
    → is_plain ys ≡ true
    → match_from no_flags (xs ++ b'%' ∷ b'u' ∷ []) ys ≡ is_numbered xs ys
unfolding match_from round
numbered [] [] h k = refl
numbered [] (y ∷ ys) h k = ground (arith, after_digit ys)
numbered (x ∷ xs) [] h k = refl
numbered (x ∷ xs) (y ∷ ys) h k = ground (arith, numbered xs ys)

-- Two names without a `%` match exactly if they are the same; a template of a plain prefix and `%u`
-- matches a plain name exactly if that is the prefix and then a number.
match_pad_name_numbers :
    (xs ys : List ℕ)
    → is_plain xs ≡ true
    → is_plain ys ≡ true
    → (match_pad_name xs ys ≡ same xs ys)
      × (match_pad_name (xs ++ b'%' ∷ b'u' ∷ []) ys ≡ is_numbered xs ys)
unfolding match_pad_name
match_pad_name_numbers xs ys h k = (plain_same xs ys h k, numbered xs ys h k)

ignored :
    (xs ts : List ℕ) (d : ℕ)
    → isdigit d ≡ true
    → match_from no_flags (xs ++ b'%' ∷ ts) (xs ++ d ∷ []) ≡ true
unfolding match_from round
ignored [] [] d h = ground (arith, h)
ignored [] (t ∷ ts) d h = ground (arith, h)
ignored (x ∷ xs) ts d h = ground (arith, ignored xs ts d h)

-- Whatever follows the `%`: a template matches its prefix with one digit after it, also where the
-- template goes on with other text or is no `%u`.
match_pad_name_ignores :
    (xs ts : List ℕ) (d : ℕ)
    → isdigit d ≡ true
    → match_pad_name (xs ++ b'%' ∷ ts) (xs ++ d ∷ []) ≡ true
unfolding match_pad_name
match_pad_name_ignores xs ts d h = ignored xs ts d h
