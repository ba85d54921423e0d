-- ===== src/Buffer.antt =====
-- The ring buffer that src/impl/track.cpp keeps its messages in: `boost::circular_buffer`, which is
-- code of another project, by what its documentation says of the operations that are used.
use conference_go_client.Common.{
  ℕ, ◌<◌, ◌≡◌, ◌==◌, refl, Bool, Option, none, some, List, [], ◌∷◌, ◌++◌, map, length,
  if◌then◌else◌, arith,
}

module _ {X : Type 0} where
  -- A list without its first entry.
  abbrev pub tail : List X → List X
  tail [] = []
  tail (x ∷ xs) = xs

  abbrev pub head : List X → Option X
  head [] = none
  head (x ∷ xs) = some x

pub head-some : {X : Type 0} (xs : List X) → 0 < length xs → (x : X) × (head xs ≡ some x)
head-some [] lt = absurd (omega (arith, lt))
head-some (x ∷ xs) lt = (x, refl)

-- `contents` is the buffer from its front to its back; `for_each` is a loop that changes every entry.
pub record Buffers (B X : Type 0) : Type 0 where
  pub contents : B → List X
  pub capacity : B → ℕ
  pub pop_front : B → B
  pub push_back : X → B → B
  pub for_each : (X → X) → B → B
  pub pop_contents : (b : B) → contents (pop_front b) ≡ tail (contents b)
  pub push_contents :
      (x : X) (b : B)
      → 0 < capacity b
      → contents (push_back x b)
        ≡ (if length (contents b) == capacity b then tail (contents b) else contents b) ++ x ∷ []
  pub each_contents : (f : X → X) (b : B) → contents (for_each f b) ≡ map f (contents b)
  pub pop_capacity : (b : B) → capacity (pop_front b) ≡ capacity b
  pub push_capacity : (x : X) (b : B) → capacity (push_back x b) ≡ capacity b
  pub each_capacity : (f : X → X) (b : B) → capacity (for_each f b) ≡ capacity b

module _ {B X : Type 0} (buffers : Buffers B X) where
  abbrev pub front : B → Option X
  front b = head (buffers.contents b)

  abbrev pub full : B → Bool
  full b = length (buffers.contents b) == buffers.capacity b

-- A buffer as its capacity and its entries.
abbrev pub ring : {X : Type 0} → Buffers (ℕ × List X) X
ring = record {
  contents = λ b. b.1;
  capacity = λ b. b.0;
  pop_front = λ b. (b.0, tail b.1);
  push_back = λ x b. (b.0, (if length b.1 == b.0 then tail b.1 else b.1) ++ x ∷ []);
  for_each = λ f b. (b.0, map f b.1);
  pop_contents = λ b. refl;
  push_contents = λ x b room. refl;
  each_contents = λ f b. refl;
  pop_capacity = λ b. refl;
  push_capacity = λ x b. refl;
  each_capacity = λ f b. refl;
}
