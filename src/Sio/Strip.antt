-- ===== src/Sio/Strip.antt =====
-- Texts with their blanks and line ends left out, part by part.
use conference_go_client.Common.{
  ℕ, zero, suc, ◌==◌, ltb, ℤ, pos_part, Bool, true, false, not, ◌||◌, [], ◌∷◌, ◌++◌, ◌≡◌, refl, ap,
  ◌∙◌, replicate, keep, keep-append, Bytes, codes, if◌then◌else◌, arith,
}
use mathlib.Core.List.{append_assoc, append-nil}
use conference_go_client.Sio.{s_ident, last_line, word_start, word_end, line_end}

abbrev pub visible : ℕ → Bool
visible c = not (c == b' ' || c == 10)

unfoldable pub strip : Bytes → Bytes
strip s = keep visible s

pub strip-append : (s t : Bytes) → strip (s ++ t) ≡ strip s ++ strip t
unfolding strip
strip-append s t = keep-append visible s t

strip-replicate : (n : ℕ) → strip (replicate n b' ') ≡ []
unfolding strip
strip-replicate zero = refl
strip-replicate (suc n) = strip-replicate n

-- What stands before an entry that is not the first.
abbrev pub separator : Bool → Bytes
separator first = if first then [] else codes ","

strip_line_start : (d : ℤ) → strip (10 ∷ s_ident d) ≡ []
unfolding s_ident strip
strip_line_start d = strip-replicate (if ltb 300 (pos_part d) then 300 else pos_part d)

strip-last_line : (d : ℤ) (n : ℕ) → strip (last_line d n) ≡ []
strip-last_line d zero = unfold strip in refl
strip-last_line d (suc n) = ground (arith, strip_line_start d)

strip-word_start : (i : ℕ) → strip (word_start i) ≡ separator (i == 0)
strip-word_start zero = unfold strip in refl
strip-word_start (suc i) = unfold strip in (ground arith)

strip-word_end : (n i : ℕ) → strip (word_end n i) ≡ []
unfolding strip
strip-word_end n i = ground arith

pub strip-line_end : (n i : ℕ) → strip (line_end n i) ≡ line_end n i
unfolding strip
strip-line_end n i = ground arith

ruleset strip_laws = (
  strip-append, strip_line_start, strip-last_line, strip-word_start, strip-word_end, strip-line_end,
  append_assoc,
)

pub strip_line :
    (d : ℤ) (key text rest : Bytes)
    → strip ((10 ∷ s_ident d) ++ (codes "  " ++ (key ++ (codes ": " ++ (text ++ rest)))))
      ≡ strip key ++ (codes ":" ++ (strip text ++ strip rest))
strip_line d key text rest = simp strip_laws (unfold strip in refl)

pub strip_item :
    (d : ℤ) (text rest : Bytes)
    → strip ((10 ∷ s_ident d) ++ (codes "  " ++ (text ++ rest))) ≡ strip text ++ strip rest
strip_item d text rest = simp strip_laws (unfold strip in refl)

pub strip_word :
    (n i : ℕ) (key text rest : Bytes)
    → strip (word_start i ++ (key ++ (codes ": " ++ (text ++ (word_end n i ++ rest)))))
      ≡ separator (i == 0) ++ (strip key ++ (codes ":" ++ (strip text ++ strip rest)))
strip_word n i key text rest = simp strip_laws (unfold strip in refl)

pub strip_item_word :
    (n i : ℕ) (text rest : Bytes)
    → strip (word_start i ++ (text ++ (word_end n i ++ rest)))
      ≡ separator (i == 0) ++ (strip text ++ strip rest)
strip_item_word n i text rest = simp strip_laws (unfold strip in refl)

pub strip_words :
    (a b : ℕ) (t : Bytes)
    → visible a ≡ true
    → visible b ≡ true
    → strip (a ∷ (t ++ (b ∷ []))) ≡ a ∷ (strip t ++ (b ∷ []))
unfolding strip
strip_words a b t ha hb = ground (arith, keep-append visible t (b ∷ []))

pub strip_lines :
    (d : ℤ) (n a b : ℕ) (t : Bytes)
    → visible a ≡ true
    → visible b ≡ true
    → strip (a ∷ (t ++ (last_line d n ++ (b ∷ [])))) ≡ a ∷ (strip t ++ (b ∷ []))
strip_lines d n a b t ha hb =
    let e : t ++ (last_line d n ++ (b ∷ [])) ≡ (t ++ last_line d n) ++ (b ∷ []) =
      simp append_assoc refl in
    let w : strip (a ∷ ((t ++ last_line d n) ++ (b ∷ [])))
        ≡ a ∷ (strip (t ++ last_line d n) ++ (b ∷ [])) =
      strip_words a b (t ++ last_line d n) ha hb in
    ap (λ (u : Bytes). strip (a ∷ u)) e ∙ w ∙ simp (strip-append, strip-last_line, append-nil) refl

pub suc-ne-zero : (i : ℕ) → (suc i == 0) ≡ false
suc-ne-zero i = ground arith

pub strip_nil : strip [] ≡ []
unfolding strip
strip_nil = refl

pub strip_absent : strip (codes "<empty msg>") ≡ codes "<emptymsg>"
unfolding strip
strip_absent = refl

pub strip_null : strip (codes "nullptr") ≡ codes "nullptr"
unfolding strip
strip_null = refl

pub strip_boolean :
    (b : Bool)
    → strip (if b then codes "true" else codes "false")
      ≡ (if b then codes "true" else codes "false")
unfolding strip
strip_boolean true = refl
strip_boolean false = refl
