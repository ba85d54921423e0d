-- ===== src/Manager/Tests.antt =====
-- Managers with concrete blockers, and the theorems at them.
use Prim.Native.Nat.{min}
use conference_go_client.Common.{
  ℕ, ◌+◌, ◌≤◌, ◌≡◌, ◌==◌, refl, ltb, pos, negsuc, ◌+ℤ◌, Bool, true, false, ◌&&◌, some, List, [],
  ◌∷◌, map, arith, length, count, All,
}
use conference_go_client.Channel.{slot}
use conference_go_client.Manager.{
  Configure, Info, Manager, threw, id_of, calc_batch, add_blocker, remove_blocker, unlock,
}
use conference_go_client.Manager.Choice.{select, max_epoch, select_fair, sort, choose, precedes}
use conference_go_client.Manager.Registry.{uses, asks, Inv}
use conference_go_client.Manager.Unlock.{unlocks, call, call-Inv, unlock_admits}
use conference_go_client.Manager.Ready.{add_remove_add_throws}

-- Leaves one of the blockers running, and asks for three at least.
abbrev all_but_one : Configure
all_but_one = record { block_timeout = pos 10; target_batch = negsuc 0; min_batch = 3 }

four_of_five : calc_batch all_but_one 5 ≡ 4
unfolding calc_batch ◌+ℤ◌
four_of_five = refl

abbrev worker : ℕ → ℕ → Bool → Bool → Info Bool
worker id epoch blocked valid = record {
  blocker = record {
    id = id;
    block = blocked;
    blocked = blocked;
    request_chan = false;
    response_chan = false;
  };
  epoch = epoch;
  priority = pos 0;
  valid = valid;
}

abbrev crew : List (Info Bool)
crew = worker 0 5 true true ∷ worker 1 4 true true ∷ worker 2 5 true true ∷ []

chosen : map (λ i. id_of i) (select 1 crew) ≡ 1 ∷ 0 ∷ []
unfolding select sort choose max_epoch precedes
chosen = refl

select_fair_example :
    (count (λ b. b.blocker.blocked) (select 1 crew) ≤ 3)
    × (min 1 (length crew) ≤ length (select 1 crew))
    × (count (λ b. ltb b.epoch (max_epoch crew)) (select 1 crew)
        ≡ count (λ b. ltb b.epoch (max_epoch crew)) crew)
    × (count (λ b. b.epoch == max_epoch crew) (select 1 crew) ≤ 1)
select_fair_example = select_fair (λ b. b.blocker.blocked) 1 crew

-- Locked: 0 is blocked, 1 was removed meanwhile, and somebody waits to be number 2.
abbrev locked_manager : Manager Bool
locked_manager = record {
  conf = record { block_timeout = pos 10; target_batch = pos 0; min_batch = 1 };
  blockers = worker 0 0 true true ∷ worker 1 1 false false ∷ [];
  requests = record { id = 2; priority = pos 0; chan = false } ∷ [];
  next_id = 3;
  next_epoch = 2;
  locked = true;
  ready_ch = false;
}

locked_manager-Inv : Inv slot locked_manager
locked_manager-Inv = record {
  once = λ a. ground arith;
  below = λ a h. ground arith;
  no_requests = λ u. cc;
  all_valid = λ u. cc;
  untold = (refl, tt);
}

call-Inv_example : (n : Manager Bool) × (call slot unlocks locked_manager ≡ some n) × Inv slot n
call-Inv_example = call-Inv slot locked_manager unlocks (omega arith) locked_manager-Inv

unlock_admits_example :
    (n : Manager Bool) × (told : List (ℕ × Bool)) × (unlock slot locked_manager ≡ some (n, told))
    × (n.locked ≡ false)
    × (n.requests ≡ [])
    × (map (λ q. q.0) told ≡ 2 ∷ [])
    × All (λ q. q.1 ≡ true) told
    × All (λ r. uses r.id n.blockers ≡ 1) locked_manager.requests
    × All (λ i. i.blocker.block ≡ false) n.blockers
    × ((a : ℕ)
        → uses a n.blockers
          ≡ count (λ i. i.valid && (id_of i == a)) locked_manager.blockers
            + asks a locked_manager.requests)
unlock_admits_example = unlock_admits slot locked_manager refl locked_manager-Inv

-- Nobody there, and one blocker is enough to lock.
abbrev idle_manager : Manager Bool
idle_manager = record locked_manager {
  blockers = [];
  requests = [];
  next_id = 0;
  next_epoch = 0;
  locked = false;
}

idle_manager-Inv : Inv slot idle_manager
idle_manager-Inv = record {
  once = λ a. ground arith;
  below = λ a h. ground arith;
  no_requests = λ u. refl;
  all_valid = λ u. tt;
  untold = tt;
}

add_remove_add_throws_example :
    let n = remove_blocker 0 (add_blocker slot (pos 1) idle_manager).0 in
    ((add_blocker slot (pos 2) n).1 ≡ threw) × (length (add_blocker slot (pos 2) n).0.blockers ≡ 1)
add_remove_add_throws_example =
    add_remove_add_throws slot (pos 1) (pos 2) idle_manager refl refl refl idle_manager-Inv
