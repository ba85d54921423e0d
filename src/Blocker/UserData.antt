-- ===== src/Blocker/UserData.antt =====
-- src/async_locker.cpp, the `std::variant` that a blocker carries for its user: `std::get` on another
-- alternative throws, here `none`. Pointers and doubles are parameters.
use Prim.Native.String.{String}
use conference_go_client.Common.{
  ℕ, ◌+◌, ◌≡◌, ℤ, Bool, true, false, Option, none, some, is_some, arith, if◌then◌else◌,
}

pub data UserData (Ptr Float : Type 0) : Type 0 where
  null : UserData Ptr Float
  pointer : Ptr → UserData Ptr Float
  integer : ℤ → UserData Ptr Float
  float : Float → UserData Ptr Float
  text : String → UserData Ptr Float

abbrev pub tally : Bool → ℕ
tally b = if b then 1 else 0

module _ {Ptr Float : Type 0} where
  pub remove_user_data : UserData Ptr Float → UserData Ptr Float
  remove_user_data d = null

  pub get_pointer_user_data : UserData Ptr Float → Option Ptr
  get_pointer_user_data (pointer p) = some p
  get_pointer_user_data _ = none

  pub get_integer_user_data : UserData Ptr Float → Option ℤ
  get_integer_user_data (integer i) = some i
  get_integer_user_data _ = none

  pub get_float_user_data : UserData Ptr Float → Option Float
  get_float_user_data (float d) = some d
  get_float_user_data _ = none

  pub get_string_user_data : UserData Ptr Float → Option String
  get_string_user_data (text s) = some s
  get_string_user_data _ = none

  pub has_user_data : UserData Ptr Float → Bool
  has_user_data null = false
  has_user_data _ = true

  pub has_ptr_data : UserData Ptr Float → Bool
  has_ptr_data (pointer p) = true
  has_ptr_data _ = false

  pub has_int_data : UserData Ptr Float → Bool
  has_int_data (integer i) = true
  has_int_data _ = false

  pub has_float_data : UserData Ptr Float → Bool
  has_float_data (float d) = true
  has_float_data _ = false

  pub has_string_data : UserData Ptr Float → Bool
  has_string_data (text s) = true
  has_string_data _ = false

  -- For every value that a blocker may carry: `has_ptr_data`, `has_int_data`, `has_float_data` and
  -- `has_string_data` say whether the `get` of that alternative returns and does not throw, at most
  -- one of them holds, `has_user_data` is whether any does, and none does after `remove_user_data`.
  user_data_tags :
      (d : UserData Ptr Float)
      → (has_ptr_data d ≡ is_some (get_pointer_user_data d))
        × (has_int_data d ≡ is_some (get_integer_user_data d))
        × (has_float_data d ≡ is_some (get_float_user_data d))
        × (has_string_data d ≡ is_some (get_string_user_data d))
        × (tally (has_ptr_data d)
              + tally (has_int_data d)
              + tally (has_float_data d)
              + tally (has_string_data d)
            ≡ tally (has_user_data d))
        × (has_user_data (remove_user_data d) ≡ false)
  unfolding has_ptr_data has_int_data has_float_data has_string_data has_user_data
      get_pointer_user_data get_integer_user_data get_float_user_data get_string_user_data
      remove_user_data
  user_data_tags null = ground arith
  user_data_tags (pointer p) = ground arith
  user_data_tags (integer i) = ground arith
  user_data_tags (float x) = ground arith
  user_data_tags (text s) = ground arith
