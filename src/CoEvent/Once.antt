-- ===== src/CoEvent/Once.antt =====
-- src/coevent.cpp: who awaits an event is told once.
use conference_go_client.Common.{
  length, ◌&&◌, if_lem, ℤ, pos, ◌-ℤ◌, eqb_ℤ, ◌≡◌, refl, sym, ap, ◌∙◌, Bool, true, false, false≢true,
  not, Option, none, some, List, [], ◌∷◌, ◌++◌, if◌then◌else◌, arith,
}
use conference_go_client.CoEvent.{
  Completion, triggered, timed_out, CoEvent, complete, trigger, timer_fires, told, await, World,
  after, begun, Step, triggers, awaits, fires, Reach, start, next,
}

-- What the coroutine has been told of the event.
abbrev pub due : World → List Completion
due w = if w.event.done then if w.awaited then told w.event.exception else [] else []

abbrev is_set : Option Completion → Bool
is_set none = false
is_set (some x) = true

pub record Inv (w : World) : Type 0 where
  pub calls_due : w.calls ≡ due w
  -- An event that is not done calls back whoever awaits it.
  pub registered : w.event.done ≡ false → w.event.has_handler ≡ w.awaited
  pub known : is_set w.event.exception ≡ w.event.done

complete-Inv :
    (x : Completion) (t : ℤ) (w : World)
    → w.event.done ≡ false
    → Inv w
    → Inv (after w (complete x (record (w.event) { times = t })))
complete-Inv x t w e i = record {
  calls_due =
      ap (λ cs. cs ++ (if w.event.has_handler then x ∷ [] else [])) (i.calls_due ∙ empty)
      ∙ ap (λ b. if b then x ∷ [] else []) (i.registered e);
  registered = λ f. absurd (false≢true (sym f));
  known = refl;
}
  where
    empty : due w ≡ []
    empty = ap (λ b. if b then if w.awaited then told w.event.exception else [] else []) e

++-nil : (cs : List Completion) → cs ++ [] ≡ cs
++-nil [] = refl
++-nil (c ∷ cs) = ap (λ xs. c ∷ xs) (++-nil cs)

same-Inv : (t : ℤ) (w : World) → Inv w → Inv (after w (record (w.event) { times = t }, []))
same-Inv t w i = record {
  calls_due = ++-nil w.calls ∙ i.calls_due;
  registered = i.registered;
  known = i.known;
}

trigger-Inv : (w : World) → Inv w → Inv (after w (trigger w.event))
unfolding trigger
trigger-Inv w i =
    let n = w.event.times -ℤ pos 1 in
    let less : CoEvent = record (w.event) { times = n } in
    let P : CoEvent × List Completion → Type 0 = λ r. Inv (after w r) in
    if_lem P (not w.event.done) (if eqb_ℤ n (pos 0) then complete triggered less else (less, []))
      (w.event, [])
      (λ e.
        if_lem P (eqb_ℤ n (pos 0)) (complete triggered less) (less, [])
          (λ _. complete-Inv triggered n w (ground (arith, e)) i) (λ _. same-Inv n w i))
      (λ _. same-Inv w.event.times w i)

fires-Inv : (w : World) → Inv w → Inv (after w (timer_fires w.event))
unfolding timer_fires
fires-Inv w i =
    if_lem (λ r. Inv (after w r)) (not w.event.done) (complete timed_out w.event) (w.event, [])
      (λ e. complete-Inv timed_out w.event.times w (ground (arith, e)) i)
      (λ _. same-Inv w.event.times w i)

awaits-Inv :
    (limited : Bool) (w : World)
    → w.awaited ≡ false
    → Inv w
    → Inv (after (begun limited w) (await limited w.event))
unfolding await
awaits-Inv limited w new i =
    let timed : CoEvent = record (w.event) {
      has_timer = if limited then true else w.event.has_timer;
    } in
    if_lem (λ r. Inv (after (begun limited w) r)) w.event.done (timed, told w.event.exception)
      (record timed { has_handler = true }, [])
      (λ e. record {
        calls_due =
            ap (λ cs. cs ++ told w.event.exception) (i.calls_due ∙ none_yet w.event.done)
            ∙ ap (λ b. if b then told w.event.exception else []) (sym e);
        registered = λ f. absurd (false≢true (sym f ∙ e));
        known = i.known;
      })
      (λ e. record {
        calls_due =
            ++-nil w.calls
            ∙ i.calls_due
            ∙ none_yet w.event.done
            ∙ ap (λ b. if b then told w.event.exception else []) (sym e);
        registered = λ _. refl;
        known = i.known;
      })
  where
    none_yet :
        (b : Bool) → (if b then if w.awaited then told w.event.exception else [] else []) ≡ []
    none_yet true = ap (λ b. if b then told w.event.exception else []) new
    none_yet false = refl

step-Inv : (v w : World) → Step v w → Inv v → Inv w
step-Inv _ _ (triggers w) i = trigger-Inv w i
step-Inv _ _ (awaits limited w new) i = awaits-Inv limited w new i
step-Inv _ _ (fires w set) i = fires-Inv w i

Reach-Inv : (times : ℤ) (w : World) → Reach times w → Inv w
Reach-Inv times _ start = record { calls_due = refl; registered = λ _. refl; known = refl }
Reach-Inv times _ (next v w r s) = step-Inv v w s (Reach-Inv times v r)

length-due :
    (done awaited : Bool) (o : Option Completion)
    → is_set o ≡ done
    → length (if done then if awaited then told o else [] else [])
      ≡ (if done && awaited then 1 else 0)
length-due false awaited o e = refl
length-due true false o e = refl
length-due true true none e = absurd (false≢true e)
length-due true true (some x) e = refl

-- However triggers, the timer and the one coroutine that awaits an event interleave: the coroutine is
-- told what made the event done, and nothing before that; it is told exactly once as soon as the event
-- is done and awaited, in whichever order.
pub calls-due :
    (times : ℤ) (w : World)
    → Reach times w
    → (w.calls ≡ due w) × (length w.calls ≡ (if w.event.done && w.awaited then 1 else 0))
calls-due times w r =
    let i = Reach-Inv times w r in
    (
      i.calls_due,
      ap length i.calls_due ∙ length-due w.event.done w.awaited w.event.exception i.known,
    )
