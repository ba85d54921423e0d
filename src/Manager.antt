-- ===== src/Manager.antt =====
-- src/async_locker.cpp, `detail::AsyncBlockerManager`: who may add and remove blockers when, how many
-- are blocked at once, and in which order they are chosen. A blocker that the list and its user share
-- is kept in the list; each critical section is one function.
pub mod Batch
pub mod Choice
pub mod Registry
pub mod Unlock
pub mod Ready
mod Tests
use mathlib.Core.Option
use conference_go_client.Common.{
  ℕ, suc, ◌+◌, ◌%◌, ◌^◌, ◌==◌, ltb, leb, ℤ, pos, pos_part, ◌+ℤ◌, ltb_ℤ, eqb_ℤ, Bool, true, false,
  not, ◌&&◌, ◌||◌, Option, none, some, is_some, List, [], ◌∷◌, ◌++◌, map, length, keep,
  if◌then◌else◌,
}
use conference_go_client.Channel.{Channels, chan_must_write}
use conference_go_client.Blocker.{Blocker, new_blocker, request_block, request_unblock}

pub record Configure : Type 0 where
  pub block_timeout : ℤ
  pub target_batch : ℤ
  pub min_batch : ℕ

-- `Configure::validate` returns; otherwise it throws.
unfoldable pub validates : Configure → Bool
validates c =
    not (ltb c.min_batch 1 || ltb 2147483647 c.min_batch)
    && not (ltb_ℤ (pos 0) c.target_batch && ltb_ℤ c.target_batch (pos c.min_batch))

pub record Info (Ch : Type 0) : Type 0 where
  pub blocker : Blocker Ch
  pub epoch : ℕ
  pub priority : ℤ
  pub valid : Bool

pub record Request (Ch : Type 0) : Type 0 where
  pub id : ℕ
  pub priority : ℤ
  pub chan : Ch

pub record Manager (Ch : Type 0) : Type 0 where
  pub conf : Configure
  pub blockers : List (Info Ch)
  pub requests : List (Request Ch)
  pub next_id : ℕ
  pub next_epoch : ℕ
  pub locked : Bool
  pub ready_ch : Ch

-- `std::uint32_t`
abbrev pub u32 : ℕ → ℕ
u32 n = n % 2 ^ 32

-- `std::max` on integers.
abbrev pub max_ℤ : ℤ → ℤ → ℤ
max_ℤ a b = if ltb_ℤ a b then b else a

-- `_calc_batch` for that many blockers.
unfoldable pub calc_batch : Configure → ℕ → ℕ
calc_batch c size =
    if ltb_ℤ (pos 0) c.target_batch
    then if ltb_ℤ (pos size) c.target_batch
      then if ltb c.min_batch (u32 size) then u32 size else c.min_batch
      else u32 (pos_part c.target_batch)
    else if ltb_ℤ c.target_batch (pos 0)
    then u32 (pos_part (max_ℤ (c.target_batch +ℤ pos size) (pos c.min_batch)))
    else c.min_batch

-- How the critical section of `add_blocker` ends: a blocker at once, a request to wait for, or the
-- exception of a channel that is full.
pub data Added : Type 0 where
  at_once : ℕ → Added
  queued : ℕ → Added
  threw : Added

-- How `add_blocker` ends when its wait is cancelled: a `CancelError`, the blocker that came in time,
-- or a `logic_error`.
pub data Cancelled : Type 0 where
  cancel_error logic_error : Cancelled
  arrived : ℕ → Cancelled

-- One round of the loop at the start of `lock`.
pub data Locking : Type 0 where
  enters : ℕ → Locking
  waits_ready already_locked : Locking

module _ {Ch : Type 0} where
  abbrev pub id_of : Info Ch → ℕ
  id_of i = i.blocker.id

  abbrev pub batch_of : Manager Ch → ℕ
  batch_of m = calc_batch m.conf (length m.blockers)

  -- `std::find_if` and the erasure of what it finds.
  abbrev pub erase_request : ℕ → List (Request Ch) → Option (List (Request Ch))
  erase_request id [] = none
  erase_request id (r ∷ rs) =
      let rest = Option.map (λ qs. r ∷ qs) (erase_request id rs) in
      if r.id == id then some rs else rest

  abbrev pub find_info : ℕ → List (Info Ch) → Option (Info Ch)
  find_info id [] = none
  find_info id (i ∷ is) = let rest = find_info id is in if id_of i == id then some i else rest

  -- `iter->m_valid = false` at the first entry with that id.
  abbrev pub invalidate : ℕ → List (Info Ch) → List (Info Ch)
  invalidate id [] = []
  invalidate id (i ∷ is) =
      let rest = i ∷ invalidate id is in
      if id_of i == id then record i { valid = false } ∷ is else rest

  -- The cancelled part of `add_blocker`.
  unfoldable pub cancel_add : ℕ → Manager Ch → Manager Ch × Cancelled
  cancel_add id m = elim (erase_request id m.requests) [
    | some rs ↦ (record m { requests = rs }, cancel_error)
    | none ↦ elim (find_info id m.blockers) [
      | some i ↦ (m, arrived (id_of i))
      | none ↦ (m, logic_error)
    ]
  ]

  unfoldable pub remove_blocker : ℕ → Manager Ch → Manager Ch
  remove_blocker id m = record m {
    requests = keep (λ r. not (r.id == id)) m.requests;
    blockers =
        if m.locked then invalidate id m.blockers else keep (λ i. not (id_of i == id)) m.blockers;
  }

  -- `lock`, up to the point where it holds the lock or waits for `m_ready_ch`.
  unfoldable pub enter_lock : Manager Ch → Manager Ch × Locking
  enter_lock m =
      if m.locked
      then (m, already_locked)
      else if leb (batch_of m) (length m.blockers)
      then (record m { locked = true }, enters (batch_of m))
      else (m, waits_ready)

  unfoldable pub collect_locked_blocker : List (Info Ch) → List ℕ
  collect_locked_blocker is = map (λ i. id_of i) (keep (λ i. i.blocker.blocked) is)

module _ {Ch : Type 0} (channels : Channels Ch) where
  abbrev pub new_info : ℕ → ℕ → ℤ → Info Ch
  new_info id epoch priority = record {
    blocker = new_blocker channels id;
    epoch = epoch;
    priority = priority;
    valid = true;
  }

  -- The entry that `add_blocker` makes when the manager is not locked.
  abbrev pub push_blocker : ℤ → Manager Ch → Manager Ch
  push_blocker priority m = record m {
    blockers = m.blockers ++ new_info m.next_id m.next_epoch priority ∷ [];
    next_id = u32 (m.next_id + 1);
    next_epoch = u32 (m.next_epoch + 1);
  }

  abbrev pub push_request : ℤ → Manager Ch → Manager Ch
  push_request priority m = record m {
    requests =
        m.requests ++ record { id = m.next_id; priority = priority; chan = channels.fresh } ∷ [];
    next_id = u32 (m.next_id + 1);
  }

  -- The critical section of `add_blocker`.
  unfoldable pub add_blocker : ℤ → Manager Ch → Manager Ch × Added
  unfolding chan_must_write
  add_blocker priority m =
      let n = push_blocker priority m in
      let written : Manager Ch × Added = elim (chan_must_write channels n.ready_ch) [
        | none ↦ (n, threw)
        | some d ↦ (record n { ready_ch = d }, at_once m.next_id)
      ] in
      if m.locked
      then (push_request priority m, queued m.next_id)
      else if ltb (length m.blockers) (batch_of m) && leb (batch_of n) (length n.blockers)
      then written
      else (n, at_once m.next_id)

  -- `request_unblock` on an entry, which starts a new epoch for it where it was blocked.
  unfoldable pub release_info : Info Ch → Info Ch
  unfolding request_unblock
  release_info i =
      let (b, changed) = request_unblock channels i.blocker in
      record i { blocker = b; epoch = if changed then u32 (i.epoch + 1) else i.epoch }

  -- The requests become blockers; each is told through its channel. `none` is an exception.
  abbrev pub admit : ℕ → List (Request Ch) → Option (List (Info Ch) × List (ℕ × Ch))
  admit epoch [] = some ([], [])
  admit epoch (r ∷ rs) =
      let rest = admit (u32 (epoch + 1)) rs in
      elim (chan_must_write channels r.chan) [
        | none ↦ none
        | some d ↦ Option.map (λ p. (new_info r.id epoch r.priority ∷ p.0, (r.id, d) ∷ p.1)) rest
      ]

  -- `unlock`, with the channels that were written to; `none` is an exception.
  unfoldable pub unlock : Manager Ch → Option (Manager Ch × List (ℕ × Ch))
  unfolding release_info chan_must_write
  unlock m =
      let kept = keep (λ i. i.valid) (map release_info m.blockers) in
      let told =
        Option.map
          (λ p. (
            record m {
              locked = false;
              blockers = kept ++ p.0;
              requests = [];
              next_epoch = u32 (m.next_epoch + length m.requests);
            },
            p.1,
          ))
          (admit m.next_epoch m.requests) in
      if m.locked then told else some (m, [])
