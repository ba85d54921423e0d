-- ===== src/Handles.antt =====
-- src/capi.cpp: the handles of the C interface. For each kind of object there are two maps, from
-- handles to objects and to counts; one number gives the handles of all kinds. A map is the list of
-- its entries.
pub mod Maps
pub mod Cells
pub mod Calls
pub mod Released
pub mod Arrays
mod Tests
use conference_go_client.Common.{
  ℕ, suc, ◌+◌, ◌==◌, ltb, ℤ, pos, negsuc, ◌+ℤ◌, ◌-ℤ◌, eqb_ℤ, Bool, true, false, not, Option, none,
  some, List, [], ◌∷◌, length, keep, if◌then◌else◌,
}
use conference_go_client.Handles.Maps.{find, store, erase}

pub data Kind : Type 0 where
  execution_context close_chan client subscribation track : Kind

abbrev pub number : Kind → ℕ
number execution_context = 0
number close_chan = 1
number client = 2
number subscribation = 3
number track = 4

abbrev pub same_kind : Kind → Kind → Bool
same_kind j k = number j == number k

-- What a function returns or throws: `cpptrace::invalid_argument` or `cpptrace::logic_error`.
pub data Result {ℓ} (A : Type ℓ) : Type ℓ where
  ok : A → Result A
  invalid_argument logic_error : Result A

-- The maps of one kind.
pub record Tables (V : Type 0) : Type 0 where
  pub objects : List (ℕ × V)
  pub refs : List (ℕ × ℤ)

pub record Api (V : Type 0) : Type 0 where
  pub tables : Kind → Tables V
  pub last_handle : ℕ

module _ {V : Type 0} where
  abbrev pub with_tables : Kind → Tables V → Api V → Api V
  with_tables k t a = record a { tables = λ j. if same_kind k j then t else a.tables j }

  -- What `get` returns, given what the map of objects has, or throws.
  abbrev pub fetched : Option V → Result V
  fetched none = invalid_argument
  fetched (some v) = ok v

  -- `get_execution_context` and its kin.
  unfoldable pub get : Kind → ℕ → Api V → Result V
  get k handle a = fetched (find handle (a.tables k).objects)

  -- `wrap_execution_context` and its kin.
  unfoldable pub wrap : Kind → V → Api V → Api V × ℕ
  wrap k v a =
      let handle = suc a.last_handle in
      let t = a.tables k in
      let u : Tables V = record {
        objects = (handle, v) ∷ t.objects;
        refs = (handle, pos 1) ∷ t.refs;
      } in
      (record (with_tables k u a) { last_handle = handle }, handle)

  -- `ref_execution_context` and its kin, on the maps of the kind.
  unfoldable pub ref_in : ℕ → Tables V → Tables V × Result (Unit {0})
  unfolding ◌+ℤ◌
  ref_in handle t = elim (find handle t.refs) [
    | none ↦ (t, invalid_argument)
    | some n ↦ (record t { refs = store handle (n +ℤ pos 1) t.refs }, ok tt)
  ]

  -- The end of `unref_execution_context` and its kin, where the count is 0.
  abbrev pub release : ℕ → Tables V → Tables V × Result (Unit {0})
  release handle t = elim (find handle t.objects) [
    | none ↦ (t, logic_error)
    | some v ↦ (record t { objects = erase handle t.objects }, ok tt)
  ]

  -- `unref_execution_context` and its kin, on the maps of the kind.
  unfoldable pub unref_in : ℕ → Tables V → Tables V × Result (Unit {0})
  unfolding ◌-ℤ◌
  unref_in handle t = elim (find handle t.refs) [
    | none ↦ (t, invalid_argument)
    | some n ↦
        let u = record t { refs = store handle (n -ℤ pos 1) t.refs } in
        if eqb_ℤ (n -ℤ pos 1) (pos 0) then release handle u else (u, ok tt)
  ]

  unfoldable pub ref : Kind → ℕ → Api V → Api V × Result (Unit {0})
  unfolding ref_in
  ref k handle a = let r = ref_in handle (a.tables k) in (with_tables k r.0 a, r.1)

  unfoldable pub unref : Kind → ℕ → Api V → Api V × Result (Unit {0})
  unfolding unref_in
  unref k handle a = let r = unref_in handle (a.tables k) in (with_tables k r.0 a, r.1)

  -- `c_wrap`: an exception becomes CFGO_ERR_FAILURE.
  abbrev pub c_wrap : Api V × Result ℤ → Api V × ℤ
  c_wrap (a, ok n) = (a, n)
  c_wrap (a, invalid_argument) = (a, negsuc 0)
  c_wrap (a, logic_error) = (a, negsuc 0)

  -- `return CFGO_ERR_SUCCESS` after a call.
  abbrev pub succeeds : Api V × Result (Unit {0}) → Api V × Result ℤ
  succeeds (a, ok u) = (a, ok (pos 0))
  succeeds (a, invalid_argument) = (a, invalid_argument)
  succeeds (a, logic_error) = (a, logic_error)

  abbrev pub created : Api V × ℕ → Api V × ℤ
  created r = (r.0, pos r.1)

  unfoldable pub cfgo_execution_context_create_io_context : V → Api V → Api V × ℤ
  unfolding wrap
  cfgo_execution_context_create_io_context ctx a = created (wrap execution_context ctx a)

  unfoldable pub cfgo_execution_context_ref : ℕ → Api V → Api V × ℤ
  unfolding ref
  cfgo_execution_context_ref handle a = c_wrap (succeeds (ref execution_context handle a))

  unfoldable pub cfgo_execution_context_unref : ℕ → Api V → Api V × ℤ
  unfolding unref
  cfgo_execution_context_unref handle a = c_wrap (succeeds (unref execution_context handle a))

  unfoldable pub cfgo_close_chan_create : V → Api V → Api V × ℤ
  unfolding wrap
  cfgo_close_chan_create chan a = created (wrap close_chan chan a)

  unfoldable pub cfgo_close_chan_ref : ℕ → Api V → Api V × ℤ
  unfolding ref
  cfgo_close_chan_ref handle a = c_wrap (succeeds (ref close_chan handle a))

  unfoldable pub cfgo_close_chan_unref : ℕ → Api V → Api V × ℤ
  unfolding unref
  cfgo_close_chan_unref handle a = c_wrap (succeeds (unref close_chan handle a))

  unfoldable pub cfgo_client_create : V → Api V → Api V × ℤ
  unfolding wrap
  cfgo_client_create c a = created (wrap client c a)

  unfoldable pub cfgo_client_ref : ℕ → Api V → Api V × ℤ
  unfolding ref
  cfgo_client_ref handle a = c_wrap (succeeds (ref client handle a))

  unfoldable pub cfgo_client_unref : ℕ → Api V → Api V × ℤ
  unfolding unref
  cfgo_client_unref handle a = c_wrap (succeeds (unref client handle a))

  unfoldable pub cfgo_subscribation_ref : ℕ → Api V → Api V × ℤ
  unfolding ref
  cfgo_subscribation_ref handle a = c_wrap (succeeds (ref subscribation handle a))

  unfoldable pub cfgo_subscribation_unref : ℕ → Api V → Api V × ℤ
  unfolding unref
  cfgo_subscribation_unref handle a = c_wrap (succeeds (unref subscribation handle a))

  unfoldable pub cfgo_track_ref : ℕ → Api V → Api V × ℤ
  unfolding ref
  cfgo_track_ref handle a = c_wrap (succeeds (ref track handle a))

  unfoldable pub cfgo_track_unref : ℕ → Api V → Api V × ℤ
  unfolding unref
  cfgo_track_unref handle a = c_wrap (succeeds (unref track handle a))
