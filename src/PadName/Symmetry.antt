-- ===== src/PadName/Symmetry.antt =====
-- src/impl/pipeline.cpp, `match_pad_name`: either name may be the template.
use conference_go_client.Common.{
  ℕ, ◌≡◌, ◌∙◌, refl, ap, ltb, Bool, false, ◌&&◌, List, [], ◌∷◌, arith,
}
use conference_go_client.PadName.{
  Flags, Round, refuses, first, second, both, round, match_from, no_flags, match_pad_name,
}

abbrev swap : Flags → Flags
swap f = record { f1 = f.f2; f2 = f.f1 }

abbrev mirror : Round → Round
mirror refuses = refuses
mirror (first f) = second (swap f)
mirror (second f) = first (swap f)
mirror (both f) = both (swap f)

-- The loop is in at most one template.
abbrev One : Flags → Type 0
One f = (ltb 0 f.f1 && ltb 0 f.f2) ≡ false

abbrev OneAfter : Round → Type 0
OneAfter refuses = Unit
OneAfter (first f) = One f
OneAfter (second f) = One f
OneAfter (both f) = One f

mirror-round : (c1 c2 : ℕ) (f : Flags) → One f → round c2 c1 (swap f) ≡ mirror (round c1 c2 f)
unfolding round
mirror-round c1 c2 f h = ground (arith, h)

round-One : (c1 c2 : ℕ) (f : Flags) → One f → OneAfter (round c1 c2 f)
unfolding round
round-One c1 c2 f h = ground (arith, h)

-- The loop after a round.
abbrev follow : ℕ → ℕ → List ℕ → List ℕ → Round → Bool
follow c1 c2 xs ys k = elim k [
  | refuses ↦ false
  | first g ↦ match_from g xs (c2 ∷ ys)
  | second g ↦ match_from g (c1 ∷ xs) ys
  | both g ↦ match_from g xs ys
]

abbrev Mirrored : List ℕ → List ℕ → Type 0
Mirrored xs ys = (g : Flags) → One g → match_from (swap g) ys xs ≡ match_from g xs ys

follow-mirror :
    (c1 c2 : ℕ) (xs ys : List ℕ) (k : Round)
    → OneAfter k
    → Mirrored xs (c2 ∷ ys)
    → Mirrored (c1 ∷ xs) ys
    → Mirrored xs ys
    → follow c2 c1 ys xs (mirror k) ≡ follow c1 c2 xs ys k
follow-mirror c1 c2 xs ys refuses h a b c = refl
follow-mirror c1 c2 xs ys (first g) h a b c = a g h
follow-mirror c1 c2 xs ys (second g) h a b c = b g h
follow-mirror c1 c2 xs ys (both g) h a b c = c g h

match_from-mirror : (xs ys : List ℕ) → Mirrored xs ys
unfolding match_from
match_from-mirror [] [] f h = refl
match_from-mirror [] (c2 ∷ ys) f h = ground arith
match_from-mirror (c1 ∷ xs) [] f h = ground arith
match_from-mirror (c1 ∷ xs) (c2 ∷ ys) f h =
    ap (follow c2 c1 ys xs) (mirror-round c1 c2 f h)
    ∙ follow-mirror c1 c2 xs ys (round c1 c2 f) (round-One c1 c2 f h)
        (match_from-mirror xs (c2 ∷ ys)) (match_from-mirror (c1 ∷ xs) ys) (match_from-mirror xs ys)

-- It does not matter which of two pad names is called the first.
pub match_pad_name_comm :
    (name1 name2 : List ℕ) → match_pad_name name2 name1 ≡ match_pad_name name1 name2
unfolding match_pad_name
match_pad_name_comm name1 name2 = match_from-mirror name1 name2 no_flags refl
