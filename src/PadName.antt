-- ===== src/PadName.antt =====
-- src/impl/pipeline.cpp, `match_pad_name`: whether two pad names, of which one may be a template with
-- `%u`, are the same. A name is the list of its bytes.
pub mod Symmetry
pub mod Templates
mod Tests
use conference_go_client.Common.{
  ℕ, suc, ◌==◌, leb, ltb, Bool, true, false, ◌&&◌, ◌||◌, not, List, [], ◌∷◌, if◌then◌else◌,
}

-- `f1` and `f2`: where the loop stands in a `%u` of the first and of the second name.
pub record Flags : Type 0 where
  pub f1 : ℕ
  pub f2 : ℕ

-- `std::isdigit`
abbrev pub isdigit : ℕ → Bool
isdigit c = leb b'0' c && leb c b'9'

-- One round of the loop: it returns false, or goes on in the first name, in the second, or in both.
pub data Round : Type 0 where
  refuses : Round
  first second both : Flags → Round

abbrev pub in_first : ℕ → ℕ → Flags → Round
in_first c1 c2 f =
    if f.f1 == 1 && not (c1 == b'u')
    then refuses
    else if not (isdigit c2)
    then first (record f { f1 = 0 })
    else second (record f { f1 = 2 })

abbrev pub in_second : ℕ → ℕ → Flags → Round
in_second c1 c2 f =
    if f.f2 == 1 && not (c2 == b'u')
    then refuses
    else if not (isdigit c1)
    then second (record f { f2 = 0 })
    else first (record f { f2 = 2 })

abbrev pub outside : ℕ → ℕ → Flags → Round
outside c1 c2 f =
    if c1 == c2
    then both f
    else if c1 == b'%'
    then if not (isdigit c2) then refuses else both (record f { f1 = 1 })
    else if c2 == b'%'
    then if not (isdigit c1) then refuses else both (record f { f2 = 1 })
    else refuses

unfoldable pub round : ℕ → ℕ → Flags → Round
round c1 c2 f =
    if ltb 0 f.f1
    then in_first c1 c2 f
    else if ltb 0 f.f2
    then in_second c1 c2 f
    else outside c1 c2 f

abbrev pub in_template : Flags → Bool
in_template f = ltb 0 f.f1 || ltb 0 f.f2

-- The loop, from the places `i` and `j` on.
unfoldable pub match_from : Flags → List ℕ → List ℕ → Bool
match_from f [] [] = true
match_from f [] (c2 ∷ ys) = in_template f
match_from f (c1 ∷ xs) [] = in_template f
match_from f (c1 ∷ xs) (c2 ∷ ys) = elim (round c1 c2 f) [
  | refuses ↦ false
  | first g ↦ match_from g xs (c2 ∷ ys)
  | second g ↦ match_from g (c1 ∷ xs) ys
  | both g ↦ match_from g xs ys
]

abbrev pub no_flags : Flags
no_flags = record { f1 = 0; f2 = 0 }

unfoldable pub match_pad_name : List ℕ → List ℕ → Bool
unfolding match_from round
match_pad_name name1 name2 = match_from no_flags name1 name2
