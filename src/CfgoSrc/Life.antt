-- ===== src/CfgoSrc/Life.antt =====
-- src/gst/cfgosrc.cpp: the state of the source, `start`, `pause`, `resume` and `stop`, and its owner,
-- `attach` and `detach`. The close signal of the source is known by the calls that it gets.
use conference_go_client.Common.{
  suc, ◌+◌, ◌≤◌, Bool, true, false, List, [], ◌∷◌, ◌++◌, count, count-append, ◌≡◌, refl, ◌∙◌, arith,
}

pub data State : Type 0 where
  inited running paused stoped : State

-- What the source does to its signal, and the loop that it starts.
pub data Effect : Type 0 where
  spawns stops resumes closes : Effect

pub record Source : Type 0 where
  pub state : State
  pub effects : List Effect

abbrev pub fresh : Source
fresh = record { state = inited; effects = [] }

abbrev to : State → Effect → Source → Source
to q e s = record { state = q; effects = s.effects ++ (e ∷ []) }

unfoldable pub start : Source → Source
start s = elim s.state [ inited ↦ to running spawns s | q ↦ s ]

unfoldable pub pause : Source → Source
pause s = elim s.state [ running ↦ to paused stops s | q ↦ s ]

unfoldable pub resume : Source → Source
resume s = elim s.state [ paused ↦ to running resumes s | q ↦ s ]

unfoldable pub stop : Source → Source
stop s = to stoped closes s

-- The calls of the users, in any order; the loop calls `stop` too when it ends.
pub data Step : Source → Source → Type 0 where
  starts : (s : Source) → Step s (start s)
  pauses : (s : Source) → Step s (pause s)
  resumes_it : (s : Source) → Step s (resume s)
  stops_it : (s : Source) → Step s (stop s)

pub data Reaches : Source → Source → Type 0 where
  here : (s : Source) → Reaches s s
  then_step : (s t u : Source) → Reaches s t → Step t u → Reaches s u

abbrev pub is_spawns : Effect → Bool
is_spawns spawns = true
is_spawns e = false

abbrev pub is_stops : Effect → Bool
is_stops stops = true
is_stops e = false

abbrev pub is_resumes : Effect → Bool
is_resumes resumes = true
is_resumes e = false

abbrev pub is_closes : Effect → Bool
is_closes closes = true
is_closes e = false

-- What the effects must be in each state.
abbrev pub Fits : State → List Effect → Type 0
Fits inited l =
    (count is_spawns l ≡ 0)
    × (count is_stops l ≡ 0)
    × (count is_resumes l ≡ 0)
    × (count is_closes l ≡ 0)
Fits running l =
    (count is_spawns l ≡ 1) × (count is_stops l ≡ count is_resumes l) × (count is_closes l ≡ 0)
Fits paused l =
    (count is_spawns l ≡ 1)
    × (count is_stops l ≡ suc (count is_resumes l))
    × (count is_closes l ≡ 0)
Fits stoped l =
    (count is_spawns l ≤ 1)
    × (count is_resumes l ≤ count is_stops l)
    × (count is_stops l ≤ suc (count is_resumes l))
    × (1 ≤ count is_closes l)

counts :
    (l : List Effect) (e : Effect)
    → (count is_spawns (l ++ (e ∷ [])) ≡ count is_spawns l + count is_spawns (e ∷ []))
      × (count is_stops (l ++ (e ∷ [])) ≡ count is_stops l + count is_stops (e ∷ []))
      × (count is_resumes (l ++ (e ∷ [])) ≡ count is_resumes l + count is_resumes (e ∷ []))
      × (count is_closes (l ++ (e ∷ [])) ≡ count is_closes l + count is_closes (e ∷ []))
counts l e = (
  count-append is_spawns l (e ∷ []),
  count-append is_stops l (e ∷ []),
  count-append is_resumes l (e ∷ []),
  count-append is_closes l (e ∷ []),
)

stop-Fits : (q : State) (l : List Effect) → Fits q l → Fits stoped (l ++ (closes ∷ []))
stop-Fits inited l h =
    let c = counts l closes in
    (
      omega (arith, c.0, h.0),
      omega (arith, c.1, c.2, h.1, h.2),
      omega (arith, c.1, c.2, h.1, h.2),
      omega (arith, c.3),
    )
stop-Fits running l h =
    let c = counts l closes in
    (
      omega (arith, c.0, h.0),
      omega (arith, c.1, c.2, h.1),
      omega (arith, c.1, c.2, h.1),
      omega (arith, c.3),
    )
stop-Fits paused l h =
    let c = counts l closes in
    (
      omega (arith, c.0, h.0),
      omega (arith, c.1, c.2, h.1),
      omega (arith, c.1, c.2, h.1),
      omega (arith, c.3),
    )
stop-Fits stoped l h =
    let c = counts l closes in
    (
      omega (arith, c.0, h.0),
      omega (arith, c.1, c.2, h.1),
      omega (arith, c.1, c.2, h.2),
      omega (arith, c.3),
    )

abbrev FitsIn : Source → Type 0
FitsIn s = Fits s.state s.effects

abbrev in_state : State → List Effect → Source
in_state q l = record { state = q; effects = l }

start-Fits : (q : State) (l : List Effect) → Fits q l → FitsIn (start (in_state q l))
unfolding start
start-Fits inited l h =
    let c = counts l spawns in
    (omega (arith, c.0, h.0), omega (arith, c.1, c.2, h.1, h.2), omega (arith, c.3, h.3))
start-Fits running l h = h
start-Fits paused l h = h
start-Fits stoped l h = h

pause-Fits : (q : State) (l : List Effect) → Fits q l → FitsIn (pause (in_state q l))
unfolding pause
pause-Fits inited l h = h
pause-Fits running l h =
    let c = counts l stops in
    (omega (arith, c.0, h.0), omega (arith, c.1, c.2, h.1), omega (arith, c.3, h.2))
pause-Fits paused l h = h
pause-Fits stoped l h = h

resume-Fits : (q : State) (l : List Effect) → Fits q l → FitsIn (resume (in_state q l))
unfolding resume
resume-Fits inited l h = h
resume-Fits running l h = h
resume-Fits paused l h =
    let c = counts l resumes in
    (omega (arith, c.0, h.0), omega (arith, c.1, c.2, h.1), omega (arith, c.3, h.2))
resume-Fits stoped l h = h

step-Fits : (s t : Source) → Step s t → FitsIn s → FitsIn t
step-Fits _ _ (starts s) h = start-Fits s.state s.effects h
step-Fits _ _ (pauses s) h = pause-Fits s.state s.effects h
step-Fits _ _ (resumes_it s) h = resume-Fits s.state s.effects h
step-Fits _ _ (stops_it s) h = unfold stop in (stop-Fits s.state s.effects h)

reaches_lem : (s t : Source) → Reaches s t → FitsIn s → FitsIn t
reaches_lem _ _ (here s) h = h
reaches_lem _ _ (then_step s t u r k) h = step-Fits t u k (reaches_lem s t r h)

-- In whatever order a source is started, paused, resumed and stopped, it runs its loop once at most.
-- Before `stop` is called its signal is not closed, and it is stopped once more than it is resumed
-- while the source is paused, and as often while it runs; afterwards the signal was closed, and was
-- stopped as often as it was resumed or once more.
pub Reaches-Fits : (s : Source) → Reaches fresh s → Fits s.state s.effects
Reaches-Fits s r = reaches_lem fresh s r (refl, refl, refl, refl)

still-stoped :
    (s t : Source)
    → Step s t
    → s.state ≡ stoped
    → (t.state ≡ stoped) × (count is_spawns t.effects ≡ count is_spawns s.effects)
unfolding start pause resume stop
still-stoped _ _ (starts s) h = (cc h, cc h)
still-stoped _ _ (pauses s) h = (cc h, cc h)
still-stoped _ _ (resumes_it s) h = (cc h, cc h)
still-stoped _ _ (stops_it s) h = (refl, omega (arith, (counts s.effects closes).0))

-- A source that was stopped is stopped for ever, and starts no loop any more.
Reaches-stoped :
    (s t : Source)
    → Reaches s t
    → s.state ≡ stoped
    → (t.state ≡ stoped) × (count is_spawns t.effects ≡ count is_spawns s.effects)
Reaches-stoped _ _ (here s) h = (h, refl)
Reaches-stoped _ _ (then_step s t u r k) h =
    let ih = Reaches-stoped s t r h in let next = still-stoped t u k ih.0 in (next.0, next.1 ∙ ih.1)
