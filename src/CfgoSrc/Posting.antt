-- ===== src/CfgoSrc/Posting.antt =====
-- src/gst/cfgosrc.cpp, `CfgoSrc::_post_buffer`: a message of the track is copied into a buffer that is
-- pushed to the pipeline, until the pipeline has enough data.
use conference_go_client.Common.{
  ℕ, suc, ◌+◌, ltb, Bool, true, false, not, ◌&&◌, List, [], ◌∷◌, ◌++◌, count, ◌≡◌, refl, inl, inr,
  sym, ap, subst, ◌⊎◌, ◌≤◌, if_lem, if◌then◌else◌, arith,
}

-- What is done to the buffers; each is known by its message.
pub data Action : Type 0 where
  allocates maps unmaps unrefs pushes : ℕ → Action
  submits_error waits_for_need : Action

-- What the others answer for one message: whether the owner is there to allocate, whether there is a
-- buffer and whether it can be mapped, its size, and whether the owner is still there after that.
pub record Answers : Type 0 where
  pub has_owner : Bool
  pub allocated : Bool
  pub mapped : Bool
  pub maxsize : ℕ
  pub owner_stays : Bool

-- How the body is left, and whether there is a buffer then.
pub data Left : Type 0 where
  goes_on skips : Left
  stops : Bool → Left

-- The inner `do … while (false)`, for message `m` of `size` bytes.
unfoldable pub body : ℕ → ℕ → Answers → Left × List Action
body m size a =
    if not (a.has_owner && a.allocated)
    then (stops false, [])
    else if not a.mapped
    then (stops true, allocates m ∷ (if a.owner_stays then submits_error ∷ [] else []))
    else if ltb a.maxsize size
    then (skips, allocates m ∷ (maps m ∷ []))
    else if not a.owner_stays
    then (stops true, allocates m ∷ (maps m ∷ (unmaps m ∷ [])))
    else (goes_on, allocates m ∷ (maps m ∷ (unmaps m ∷ (pushes m ∷ []))))

-- What follows the body: `gst_buffer_unref` where the loop stops with a buffer.
abbrev pub after_body : ℕ → Left → List Action
after_body m goes_on = []
after_body m skips = []
after_body m (stops false) = []
after_body m (stops true) = unrefs m ∷ []

abbrev pub is_stop : Left → Bool
is_stop (stops b) = true
is_stop l = false

unfoldable pub post_one : ℕ → ℕ → Answers → Bool × List Action
post_one m size a = let left = body m size a in (is_stop left.0, left.1 ++ after_body m left.0)

abbrev pub is_allocates : Action → Bool
is_allocates (allocates m) = true
is_allocates a = false

-- A push hands the buffer over, and an unref gives it back.
abbrev pub is_disposes : Action → Bool
is_disposes (unrefs m) = true
is_disposes (pushes m) = true
is_disposes a = false

abbrev pub is_maps : Action → Bool
is_maps (maps m) = true
is_maps a = false

abbrev pub is_unmaps : Action → Bool
is_unmaps (unmaps m) = true
is_unmaps a = false

-- The buffer is too small for the message.
abbrev pub too_small : ℕ → Answers → Bool
too_small size a = a.has_owner && (a.allocated && (a.mapped && ltb a.maxsize size))

-- Every buffer that is allocated is pushed or given back once, and unmapped if it was mapped, with one
-- exception: a buffer that is too small for its message is never given back and stays mapped.
pub post_one-disposes :
    (m size : ℕ) (a : Answers)
    → let l = (post_one m size a).1 in
      let lost : ℕ = if too_small size a then 1 else 0 in
      (count is_allocates l ≡ count is_disposes l + lost)
      × (count is_maps l ≡ count is_unmaps l + lost)
unfolding post_one body
post_one-disposes m size a = (ground arith, ground arith)

-- One message that the track gave: what the others answer for it, whether the pipeline says after it
-- that it has enough, and whether it then asks for more, or the signal closes, which throws.
pub record Round : Type 0 where
  pub size : ℕ
  pub answers : Answers
  pub enough : Bool
  pub needs_more : Bool

-- `_post_buffer` from message `m` on; it returns where the track has no more messages. What the tries to
-- read do is not among the actions.
unfoldable pub post_buffer : ℕ → List Round → List Action
post_buffer m [] = []
post_buffer m (r ∷ rs) =
    let rest = post_buffer (suc m) rs in
    let one = post_one m r.size r.answers in
    let later = if r.needs_more then rest else [] in
    if one.0 then one.1 else if r.enough then one.1 ++ (waits_for_need ∷ later) else one.1 ++ rest

abbrev pub pushed : List Action → List ℕ
pushed [] = []
pushed (pushes m ∷ l) = m ∷ pushed l
pushed (a ∷ l) = pushed l

-- Numbers that rise, from `m` on.
abbrev pub RisingFrom : ℕ → List ℕ → Type 0
RisingFrom m [] = Unit
RisingFrom m (x ∷ xs) = (m ≤ x) × RisingFrom (suc x) xs

pushed-append : (k l : List Action) → pushed (k ++ l) ≡ pushed k ++ pushed l
pushed-append [] l = refl
pushed-append (pushes m ∷ k) l = ap (λ (r : List ℕ). m ∷ r) (pushed-append k l)
pushed-append (allocates m ∷ k) l = pushed-append k l
pushed-append (maps m ∷ k) l = pushed-append k l
pushed-append (unmaps m ∷ k) l = pushed-append k l
pushed-append (unrefs m ∷ k) l = pushed-append k l
pushed-append (submits_error ∷ k) l = pushed-append k l
pushed-append (waits_for_need ∷ k) l = pushed-append k l

rising_weaker : (m : ℕ) (l : List ℕ) → RisingFrom (suc m) l → RisingFrom m l
rising_weaker m [] h = tt
rising_weaker m (x ∷ xs) h = (omega (arith, h.0), h.1)

pushed_one :
    (m size : ℕ) (a : Answers)
    → (pushed (post_one m size a).1 ≡ []) ⊎ (pushed (post_one m size a).1 ≡ m ∷ [])
unfolding post_one body
pushed_one m size a = ground arith

rising-append :
    (m : ℕ) (k l : List ℕ) → (k ≡ []) ⊎ (k ≡ m ∷ []) → RisingFrom (suc m) l → RisingFrom m (k ++ l)
rising-append m k l (inl e) h =
    subst (λ (x : List ℕ). RisingFrom m (x ++ l)) (sym e) (rising_weaker m l h)
rising-append m k l (inr e) h =
    subst (λ (x : List ℕ). RisingFrom m (x ++ l)) (sym e) (omega arith, h)

rising_one : (m : ℕ) (k : List ℕ) → (k ≡ []) ⊎ (k ≡ m ∷ []) → RisingFrom m k
rising_one m k (inl e) = subst (RisingFrom m) (sym e) tt
rising_one m k (inr e) = subst (RisingFrom m) (sym e) (omega arith, tt)

-- The buffers are pushed in the order in which their messages were read, no message twice.
post_buffer-rising : (m : ℕ) (rs : List Round) → RisingFrom m (pushed (post_buffer m rs))
unfolding post_buffer
post_buffer-rising m [] = tt
post_buffer-rising m (r ∷ rs) =
    let one : Bool × List Action = post_one m r.size r.answers in
    let rest = post_buffer (suc m) rs in
    let ih = post_buffer-rising (suc m) rs in
    let tail : (l : List Action)
        → RisingFrom (suc m) (pushed l)
        → RisingFrom m (pushed (one.1 ++ l)) =
      λ l h.
        subst (RisingFrom m) (sym (pushed-append one.1 l))
          (rising-append m (pushed one.1) (pushed l) (pushed_one m r.size r.answers) h) in
    let later = if r.needs_more then rest else [] in
    let after : RisingFrom (suc m) (pushed later) =
      if_lem (λ (l : List Action). RisingFrom (suc m) (pushed l)) r.needs_more rest [] (λ e. ih)
        (λ e. tt) in
    let goal : List Action → Type 0 = λ l. RisingFrom m (pushed l) in
    let waiting = one.1 ++ (waits_for_need ∷ later) in
    if_lem goal one.0 one.1 (if r.enough then waiting else one.1 ++ rest)
      (λ e. rising_one m (pushed one.1) (pushed_one m r.size r.answers))
      (λ e.
        if_lem goal r.enough waiting (one.1 ++ rest) (λ f. tail (waits_for_need ∷ later) after)
          (λ f. tail rest ih))
