-- ===== src/CfgoSrc/Tests.antt =====
-- Concrete channels, sources and messages.
use conference_go_client.Common.{
  ℕ, ◌+◌, ◌*◌, true, false, none, some, List, [], ◌∷◌, count, ◌≡◌, refl, if◌then◌else◌,
}
use conference_go_client.CfgoSrc.Pads.{raw, parse, parse_src, Channel, World, init, destruct}
use conference_go_client.CfgoSrc.Pads.References.{
  Call, installs, uninstalls, destroys, calls, taken, given,
}
use conference_go_client.CfgoSrc.Pads.Release.{destruct-balanced}
use conference_go_client.CfgoSrc.Switching.{
  all_held, own, of_processors, switch_mode, switch_mode-leaks,
}
use conference_go_client.CfgoSrc.Channels.{new_channel}
use conference_go_client.CfgoSrc.Life.{
  fresh, start, pause, starts, pauses, Reaches, here, then_step, Fits, Reaches-Fits,
}
use conference_go_client.CfgoSrc.Owner.{Owned}
use conference_go_client.CfgoSrc.Posting.{
  Answers, Round, body, post_one, post_buffer, pushed, too_small, is_allocates, is_disposes,
  is_maps, is_unmaps, post_one-disposes,
}

abbrev quiet : World
quiet = record {
  taken = [];
  given = [];
  processors_taken = 0;
  processors_given = 0;
  ghost = λ p. none;
  owner_pads = [];
  next_ghost = 0;
}

abbrev busy : List Call
busy = installs parse_src 8 ∷ (uninstalls true 8 ∷ (installs parse_src 9 ∷ (destroys ∷ [])))

abbrev used : Channel × World
used = calls parse busy (init parse true 0 1 96 7 new_channel quiet)

destruct-balanced_example :
    (taken 9 (destruct used.0 used.1) ≡ given 9 (destruct used.0 used.1))
    × ((destruct used.0 used.1).processors_taken ≡ (destruct used.0 used.1).processors_given)
destruct-balanced_example =
    destruct-balanced parse true 0 1 96 7 busy 9 new_channel quiet refl refl (λ q. refl) refl

abbrev channel : Channel
channel = record new_channel { pad = 7; pads = 8 ∷ [] }

abbrev linked : World
linked = record quiet { taken = 7 ∷ (8 ∷ []) }

abbrev switched : List Channel × World
switched = switch_mode raw parse (λ c. true) (channel ∷ []) linked

switch_mode-leaks_example :
    taken 7 switched.1
    ≡ given 7 switched.1
      + all_held 7 switched.0
      + (2 * own 7 (channel ∷ []) + of_processors 7 (channel ∷ []))
switch_mode-leaks_example =
    switch_mode-leaks raw parse (λ c. true) (channel ∷ []) linked 7 refl refl

paused_source : Reaches fresh (pause (start fresh))
paused_source =
    then_step fresh (start fresh) (pause (start fresh))
      (then_step fresh fresh (start fresh) (here fresh) (starts fresh)) (pauses (start fresh))

Reaches-Fits_example : Fits (pause (start fresh)).state (pause (start fresh)).effects
Reaches-Fits_example = Reaches-Fits (pause (start fresh)) paused_source

abbrev alone : Owned
alone = record {
  detached = true;
  owner = none;
  mode = raw;
  rtp_bin = false;
  decode_caps = none;
  caps_taken = [];
  caps_given = [];
  next_caps = 0;
}

abbrev with_caps : Owned
with_caps = record alone {
  detached = false;
  owner = some 1;
  decode_caps = some 4;
  caps_taken = 4 ∷ [];
  next_caps = 5;
}

abbrev fine : Answers
fine = record {
  has_owner = true;
  allocated = true;
  mapped = true;
  maxsize = 100;
  owner_stays = true;
}

post_one-disposes_example :
    let l = (post_one 0 200 fine).1 in
    let lost : ℕ = if too_small 200 fine then 1 else 0 in
    (count is_allocates l ≡ count is_disposes l + lost)
    × (count is_maps l ≡ count is_unmaps l + lost)
post_one-disposes_example = post_one-disposes 0 200 fine

abbrev rounds : List Round
rounds =
    record { size = 50; answers = fine; enough = true; needs_more = true }
    ∷ (record { size = 60; answers = fine; enough = false; needs_more = false } ∷ [])

both_pushed : pushed (post_buffer 0 rounds) ≡ 0 ∷ (1 ∷ [])
unfolding post_buffer post_one body
both_pushed = refl
