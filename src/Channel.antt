-- ===== src/Channel.antt =====
-- The buffered one-slot channels of the asiochan library, `asiochan::channel<void, 1>`
-- (src/public/cfgo/async.hpp, `unique_void_chan` and `CloseSignal::Waiter`), as a parameter of the
-- model, and the two writers that the repository builds on `try_write`.
use conference_go_client.Common.{
  ◌≡◌, refl, Bool, true, false, not, Option, none, some, if◌then◌else◌,
}

-- What the code relies on: a slot that a write fills and a read empties. A write fails on a full
-- slot only, a read on an empty one only. A reader that waits takes the item as soon as it is there.
pub record Channels (Ch : Type 0) : Type 0 where
  pub fresh : Ch
  pub full : Ch → Bool
  pub try_write : Ch → Ch × Bool
  pub try_read : Ch → Ch × Bool
  pub fresh_empty : full fresh ≡ false
  pub write_accepts : (c : Ch) → (try_write c).1 ≡ not (full c)
  pub write_fills : (c : Ch) → full (try_write c).0 ≡ true
  pub read_takes : (c : Ch) → (try_read c).1 ≡ full c
  pub read_empties : (c : Ch) → full (try_read c).0 ≡ false

module _ {Ch : Type 0} (channels : Channels Ch) where
  -- `none` is the `runtime_error` that the code throws.
  unfoldable pub chan_must_write : Ch → Option Ch
  chan_must_write c = let (d, written) = channels.try_write c in if written then some d else none

  -- A write whose failure is ignored.
  unfoldable pub chan_maybe_write : Ch → Ch
  chan_maybe_write c = (channels.try_write c).0

-- The slot itself, as a truth value.
abbrev pub slot : Channels Bool
slot = record {
  fresh = false;
  full = λ c. c;
  try_write = λ c. (true, not c);
  try_read = λ c. (false, c);
  fresh_empty = refl;
  write_accepts = λ c. refl;
  write_fills = λ c. refl;
  read_takes = λ c. refl;
  read_empties = λ c. refl;
}
