-- ===== src/Handles/Arrays.antt =====
-- src/capi.cpp: `array_field_to_vector`, which copies an array of the C interface. An array is what
-- each index reads.
use conference_go_client.Common.{
  ℕ, zero, suc, ◌≡◌, refl, ap, ◌∙◌, ℤ, pos, negsuc, Option, none, some, List, [], ◌∷◌, ◌++◌,
  replicate,
}
use conference_go_client.Handles.{Result, ok, invalid_argument}

replicate-snoc : {T : Type 0} (n : ℕ) (t : T) → replicate n t ++ (t ∷ []) ≡ t ∷ replicate n t
replicate-snoc zero t = refl
replicate-snoc (suc n) t = ap (λ ts. t ∷ ts) (replicate-snoc n t)

module _ {I T : Type 0} where
  -- The loop: `push_back(converter(array[0]))` for each number below the length.
  abbrev pub pushed : (I → T) → (ℕ → I) → ℕ → List T
  pushed converter array zero = []
  pushed converter array (suc n) = pushed converter array n ++ (converter (array 0) ∷ [])

  abbrev pub array_field_to_vector : Option (ℕ → I) → ℤ → (I → T) → Result (List T)
  array_field_to_vector (some array) (pos zero) converter = invalid_argument
  array_field_to_vector (some array) (negsuc n) converter = invalid_argument
  array_field_to_vector (some array) (pos (suc n)) converter = ok (pushed converter array (suc n))
  array_field_to_vector none (pos (suc n)) converter = invalid_argument
  array_field_to_vector none (pos zero) converter = ok []
  array_field_to_vector none (negsuc n) converter = ok []

  pushed-replicate :
      (converter : I → T) (array : ℕ → I) (n : ℕ)
      → pushed converter array n ≡ replicate n (converter (array 0))
  pushed-replicate converter array zero = refl
  pushed-replicate converter array (suc n) =
      ap (λ ts. ts ++ (converter (array 0) ∷ [])) (pushed-replicate converter array n)
      ∙ replicate-snoc n (converter (array 0))

  -- An array of a positive length becomes as many copies of its first entry, whatever its other
  -- entries are.
  array_field_to_vector-replicate :
      (array : ℕ → I) (n : ℕ) (converter : I → T)
      → array_field_to_vector (some array) (pos (suc n)) converter
        ≡ ok (replicate (suc n) (converter (array 0)))
  array_field_to_vector-replicate array n converter =
      ap ok (pushed-replicate converter array (suc n))
