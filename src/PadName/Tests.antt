-- ===== src/PadName/Tests.antt =====
-- Pad names in full, and the theorems at them.
use conference_go_client.Common.{ℕ, ◌≡◌, refl, true, false, List, [], ◌∷◌, ◌++◌}
use conference_go_client.PadName.{match_pad_name}
use conference_go_client.PadName.Symmetry.{match_pad_name_comm}

-- `src_`
abbrev src : List ℕ
src = b's' ∷ b'r' ∷ b'c' ∷ b'_' ∷ []

abbrev src_12 : List ℕ
src_12 = src ++ b'1' ∷ b'2' ∷ []

abbrev template : List ℕ
template = src ++ b'%' ∷ b'u' ∷ []

template_matches : (match_pad_name template src_12 ≡ true) × (match_pad_name template src ≡ false)
unfolding match_pad_name
template_matches = (refl, refl)

match_pad_name_comm_example : match_pad_name src_12 template ≡ match_pad_name template src_12
match_pad_name_comm_example = match_pad_name_comm template src_12
