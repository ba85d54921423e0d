-- ===== src/Common/Text.antt =====
-- Text as the list of its bytes, decimal numbers, and the order of `std::string`.
use Prim.Native.Nat.{ℕ, zero, suc, ◌+◌, ◌/◌, ◌%◌}
use Prim.Native.Char.{code}
use Prim.Native.String.{String}
use mathlib.Core.Bool.{Bool, true, false, ◌&&◌, ◌||◌}
use mathlib.Core.List.{List, [], ◌∷◌}
use conference_go_client.Common.Tests.{ltb, ◌==◌, if◌then◌else◌}
use conference_go_client.Common.Int.{ℤ, pos, negsuc}

abbrev pub Bytes : Type 0
Bytes = List ℕ

abbrev pub codes : String → Bytes
codes String.[] = []
codes (String.◌∷◌ c s) = code c ∷ codes s

abbrev pub eqb_bytes : Bytes → Bytes → Bool
eqb_bytes [] [] = true
eqb_bytes [] (y ∷ ys) = false
eqb_bytes (x ∷ xs) [] = false
eqb_bytes (x ∷ xs) (y ∷ ys) = x == y && eqb_bytes xs ys

abbrev pub ltb_bytes : Bytes → Bytes → Bool
ltb_bytes [] [] = false
ltb_bytes [] (y ∷ ys) = true
ltb_bytes (x ∷ xs) [] = false
ltb_bytes (x ∷ xs) (y ∷ ys) = ltb x y || x == y && ltb_bytes xs ys

abbrev pub digits : ℕ → ℕ → Bytes → Bytes
digits zero n out = out
digits (suc f) n out =
    let here = (b'0' + n % 10) ∷ out in
    let rest = digits f (n / 10) here in if ltb n 10 then here else rest

-- `std::to_string` of an integer of 64 bits, which has at most twenty digits.
unfoldable pub to_string : ℤ → Bytes
to_string (pos n) = digits 20 n []
to_string (negsuc n) = b'-' ∷ digits 20 (suc n) []
