-- ===== src/CfgoSrc/Loop.antt =====
-- src/gst/cfgosrc.cpp, `CfgoSrc::_loop`: from the subscription to the end of the stream, for all that
-- the others may answer.
use conference_go_client.Common.{
  ℕ, suc, ◌+◌, ◌*◌, ◌≤◌, Bool, true, false, not, Option, none, some, List, [], ◌∷◌, ◌++◌, count,
  count-append, ◌≡◌, refl, if◌then◌else◌, arith,
}

-- What the loop does; a task posts the messages of RTP or of RTCP of a session.
pub data Action : Type 0 where
  creates_session adds_rtp_task adds_rtcp_task : ℕ → Action
  awaits_tasks sends_eos submits_error : Action

-- How the wait for the tasks ends: at their end, with a `CancelError`, or with another exception.
pub data Ending : Type 0 where
  finishes is_canceled throws : Ending

-- The tracks of the subscription, none where there is none, whether the signal is closed then, for
-- which sessions the owner is there and the pads are made, and whether the owner is there at the end.
pub record Answers : Type 0 where
  pub tracks : Option (List ℕ)
  pub closed : Bool
  pub owner_at : ℕ → Bool
  pub made_at : ℕ → Bool
  pub tasks : Ending
  pub owner_stays : Bool

pub data Made : Type 0 where
  all_made owner_gone failed : Made

-- The loop over the tracks, from session `i` on.
unfoldable pub create_sessions : Answers → ℕ → List ℕ → Made × List Action
create_sessions a i [] = (all_made, [])
create_sessions a i (t ∷ ts) =
    let rest = create_sessions a (suc i) ts in
    if not (a.owner_at i)
    then (owner_gone, [])
    else if not (a.made_at i)
    then (failed, [])
    else (rest.0, creates_session i ∷ (adds_rtp_task i ∷ (adds_rtcp_task i ∷ rest.1)))

abbrev pub if_owner : Action → Answers → List Action
if_owner x a = if a.owner_stays then x ∷ [] else []

abbrev pub after_tasks : Ending → Answers → List Action
after_tasks finishes a = if_owner sends_eos a
after_tasks is_canceled a = if_owner sends_eos a
after_tasks throws a = if_owner submits_error a

-- An exception of a session is caught at the end of `_loop`.
abbrev pub after_sessions : Made → Answers → List Action
after_sessions all_made a = awaits_tasks ∷ after_tasks a.tasks a
after_sessions owner_gone a = []
after_sessions failed a = if_owner submits_error a

abbrev pub subscribed : Option (List ℕ) → Answers → List Action
subscribed none a = if a.closed then [] else if_owner submits_error a
subscribed (some ts) a = let made = create_sessions a 0 ts in made.1 ++ after_sessions made.0 a

unfoldable pub loop : Answers → List Action
loop a = subscribed a.tracks a

abbrev is_session : Action → Bool
is_session (creates_session i) = true
is_session x = false

abbrev is_task : Action → Bool
is_task (adds_rtp_task i) = true
is_task (adds_rtcp_task i) = true
is_task x = false

abbrev is_eos : Action → Bool
is_eos sends_eos = true
is_eos x = false

abbrev is_error : Action → Bool
is_error submits_error = true
is_error x = false

sessions_lem :
    (a : Answers) (i : ℕ) (ts : List ℕ)
    → let l = (create_sessions a i ts).1 in
      (count is_task l ≡ 2 * count is_session l) × (count is_eos l ≡ 0) × (count is_error l ≡ 0)
unfolding create_sessions
sessions_lem a i [] = (refl, refl, refl)
sessions_lem a i (t ∷ ts) =
    let ih = sessions_lem a (suc i) ts in
    (ground (arith, ih.0), ground (arith, ih.1), ground (arith, ih.2))

-- What follows the sessions adds no session and no task, and tells the owner one thing at most.
abbrev Quiet : List Action → Type 0
Quiet l = (count is_task l ≡ 0) × (count is_session l ≡ 0) × (count is_eos l + count is_error l ≤ 1)

eos-Quiet : (a : Answers) → Quiet (if_owner sends_eos a)
eos-Quiet a = (ground arith, ground arith, ground arith)

error-Quiet : (a : Answers) → Quiet (if_owner submits_error a)
error-Quiet a = (ground arith, ground arith, ground arith)

tasks-Quiet : (e : Ending) (a : Answers) → Quiet (after_tasks e a)
tasks-Quiet finishes a = eos-Quiet a
tasks-Quiet is_canceled a = eos-Quiet a
tasks-Quiet throws a = error-Quiet a

after-Quiet : (m : Made) (a : Answers) → Quiet (after_sessions m a)
after-Quiet all_made a = tasks-Quiet a.tasks a
after-Quiet owner_gone a = (refl, refl, omega arith)
after-Quiet failed a = error-Quiet a

subscribed_lem :
    (o : Option (List ℕ)) (a : Answers)
    → let l = subscribed o a in
      (count is_task l ≡ 2 * count is_session l) × (count is_eos l + count is_error l ≤ 1)
subscribed_lem none a = (ground arith, ground arith)
subscribed_lem (some ts) a =
    let made : Made × List Action = create_sessions a 0 ts in
    let l = after_sessions made.0 a in
    let s = sessions_lem a 0 ts in
    let q = after-Quiet made.0 a in
    (
      omega (arith, s.0, q.0, q.1, count-append is_task made.1 l, count-append is_session made.1 l),
      omega (arith, s.1, s.2, q.2, count-append is_eos made.1 l, count-append is_error made.1 l),
    )

-- However the others answer, every session gets its two tasks, and the owner is told one thing at
-- most: the end of the stream or an error.
loop_tells :
    (a : Answers)
    → (count is_task (loop a) ≡ 2 * count is_session (loop a))
      × (count is_eos (loop a) + count is_error (loop a) ≤ 1)
unfolding loop
loop_tells a = subscribed_lem a.tracks a
