-- ===== src/CfgoSrc/Channels.antt =====
-- src/gst/cfgosrc.cpp, `CfgoSrc::Session`: the channels of a session, found by a pad or by the number
-- of their source and of their payload.
use conference_go_client.Common.{
  ℕ, ◌==◌, Bool, true, false, not, ◌&&◌, Option, none, some, List, [], ◌∷◌, ◌++◌, keep, ◌≡◌, ◌≢◌,
  refl, is_some, if◌then◌else◌, arith,
}
use conference_go_client.CfgoSrc.Pads.{Mode, Channel, World, init, destroy_processor, match_pad}

abbrev pub has_numbers : ℕ → ℕ → Channel → Bool
has_numbers ssrc pt c = (c.ssrc == ssrc) && (c.pt == pt)

-- `std::find_if`; none is for the exception.
abbrev pub find_if : (Channel → Bool) → List Channel → Option Channel
find_if p [] = none
find_if p (c ∷ cs) = let rest = find_if p cs in if p c then some c else rest

unfoldable pub find_channel : ℕ → ℕ → List Channel → Option Channel
find_channel ssrc pt cs = find_if (has_numbers ssrc pt) cs

unfoldable pub find_channel_of : ℕ → List Channel → Option Channel
find_channel_of pad cs = find_if (match_pad pad) cs

abbrev pub new_channel : Channel
new_channel = record { sessid = 0; ssrc = 0; pt = 0; pad = 0; pads = []; processor = false }

-- `m_channels.push_back` of a channel that is set up.
unfoldable pub create_channel :
    Mode → Bool → ℕ → ℕ → ℕ → ℕ → List Channel → World → List Channel × World
create_channel mode works id ssrc pt pad cs w =
    let s = init mode works id ssrc pt pad new_channel w in (cs ++ (s.0 ∷ []), s.1)

-- What `destroy_channel` leaves of the channels, by `remove`.
unfoldable pub destroy_channel : Bool → Channel → List Channel → World → List Channel × World
destroy_channel remove c cs w = (
  if remove then keep (λ d. not (has_numbers c.ssrc c.pt d)) cs else cs,
  (destroy_processor c w).1,
)

find_if-append :
    (p : Channel → Bool) (cs ds : List Channel)
    → find_if p (cs ++ ds) ≡ (if is_some (find_if p cs) then find_if p cs else find_if p ds)
find_if-append p [] ds = refl
find_if-append p (c ∷ cs) ds = ground (arith, find_if-append p cs ds)

find_if-keep :
    (p q : Channel → Bool) (cs : List Channel)
    → ((d : Channel) → p d ≡ true → q d ≡ false)
    → find_if p (keep (λ d. not (q d)) cs) ≡ find_if p cs
find_if-keep p q [] h = refl
find_if-keep p q (c ∷ cs) h = ground (arith, find_if-keep p q cs h, h c)

find_if-none :
    (p : Channel → Bool) (cs : List Channel) → find_if p (keep (λ d. not (p d)) cs) ≡ none
find_if-none p [] = refl
find_if-none p (c ∷ cs) = ground (arith, find_if-none p cs)

-- A channel that is destroyed and removed is found no more by its numbers, and those with another
-- source are found as before.
find-destroy_channel :
    (c : Channel) (cs : List Channel) (w : World) (ssrc pt : ℕ)
    → ssrc ≢ c.ssrc
    → (find_channel c.ssrc c.pt (destroy_channel true c cs w).0 ≡ none)
      × (find_channel ssrc pt (destroy_channel true c cs w).0 ≡ find_channel ssrc pt cs)
unfolding find_channel destroy_channel
find-destroy_channel c cs w ssrc pt h = (
  find_if-none (has_numbers c.ssrc c.pt) cs,
  find_if-keep (has_numbers ssrc pt) (has_numbers c.ssrc c.pt) cs (λ d e. ground arith),
)
