-- ===== src/Handles/Maps.antt =====
-- `std::unordered_map` from numbers, as the list of its entries.
use conference_go_client.Common.{
  ℕ, ◌==◌, ◌≡◌, ◌≢◌, refl, Option, none, some, List, [], ◌∷◌, arith, if◌then◌else◌,
}

module _ {V : Type 0} where
  abbrev pub find : ℕ → List (ℕ × V) → Option V
  find h [] = none
  find h (e ∷ es) = let rest = find h es in if e.0 == h then some e.1 else rest

  -- `it->second = v`, where the entry is there.
  abbrev pub store : ℕ → V → List (ℕ × V) → List (ℕ × V)
  store h v [] = []
  store h v (e ∷ es) = (e.0, if e.0 == h then v else e.1) ∷ store h v es

  abbrev pub erase : ℕ → List (ℕ × V) → List (ℕ × V)
  erase h [] = []
  erase h (e ∷ es) = let rest = erase h es in if e.0 == h then rest else e ∷ rest

  pub find-store_self :
      (h : ℕ) (v w : V) (es : List (ℕ × V)) → find h es ≡ some w → find h (store h v es) ≡ some v
  find-store_self h v w [] e = cc e
  find-store_self h v w (x ∷ es) e = ground (arith, e, find-store_self h v w es)

  pub find-store_ne :
      (h k : ℕ) (v : V) (es : List (ℕ × V)) → h ≢ k → find k (store h v es) ≡ find k es
  find-store_ne h k v [] e = refl
  find-store_ne h k v (x ∷ es) e = ground (arith, e, find-store_ne h k v es)

  pub find-erase_self : (h : ℕ) (es : List (ℕ × V)) → find h (erase h es) ≡ none
  find-erase_self h [] = refl
  find-erase_self h (x ∷ es) = ground (arith, find-erase_self h es)

  pub find-erase_ne : (h k : ℕ) (es : List (ℕ × V)) → h ≢ k → find k (erase h es) ≡ find k es
  find-erase_ne h k [] e = refl
  find-erase_ne h k (x ∷ es) e = ground (arith, e, find-erase_ne h k es)
