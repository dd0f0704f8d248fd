-- ===== src/Reconcile/CrashLoop/Pause.antt =====
-- When a version is paused.
use birdman.Base.{
  Bool-cases, List, Option, [], ap, arith, get_elem?, inl, inr, leb, leb→le, le→leb, ltb, ltb→lt,
  none, refl, some, some_eq, subst, suc, sym, true, zero, ℕ, ◌+◌, ◌-◌, ◌<◌, ◌↔◌, ◌∙◌, ◌∷◌, ◌≡◌, ◌≤◌,
  ◌⊎◌,
}
use birdman.Reconcile.CrashLoop.{
  crash_loop_fails, crash_loop_pause, crash_loop_paused_until, crash_loop_window, later_pause,
  pause_loop,
}

-- A run of as many failures as make a crash loop, inside the window, whose pause is not over.
abbrev pub HasLoop : List ℕ → ℕ → Type 0
HasLoop times now =
    (i start last : ℕ) × (get_elem? times i ≡ some start)
    × (get_elem? times (i + (crash_loop_fails - 1)) ≡ some last)
    × (last - start ≤ crash_loop_window)
    × (now < last + crash_loop_pause)

later_pause_to :
    (until start now : ℕ) (o : Option ℕ)
    → now < later_pause until start o
    → (now < until)
      ⊎ ((last : ℕ) × (o ≡ some last)
          × (last - start ≤ crash_loop_window)
          × (now < last + crash_loop_pause))
unfolding later_pause
later_pause_to until start now none h = inl h
later_pause_to until start now (some last) h =
    elim (Bool-cases (leb (last - start) crash_loop_window)) [
      | inr far ↦ inl (ground (arith, far, h))
      | inl near ↦ elim (Bool-cases (ltb until (last + crash_loop_pause))) [
        | inl e ↦
            inr
              (last, refl, leb→le (last - start) crash_loop_window near, ground (arith, near, e, h))
        | inr e ↦ inl (ground (arith, near, e, h))
      ]
    ]

later_pause_keeps :
    (until start now : ℕ) (o : Option ℕ) → now < until → now < later_pause until start o
unfolding later_pause
later_pause_keeps until start now none h = h
later_pause_keeps until start now (some last) h = ground arith

later_pause_starts :
    (until start now last : ℕ)
    → last - start ≤ crash_loop_window
    → now < last + crash_loop_pause
    → now < later_pause until start (some last)
unfolding later_pause
later_pause_starts until start now last near h =
    let e = le→leb (last - start) crash_loop_window near in ground (arith, e)

shift :
    (t i : ℕ) (times : List ℕ)
    → get_elem? (t ∷ times) (suc i + (crash_loop_fails - 1))
      ≡ get_elem? times (i + (crash_loop_fails - 1))
shift t i times =
    let e : suc i + (crash_loop_fails - 1) ≡ suc (i + (crash_loop_fails - 1)) = omega arith in
    ap (get_elem? (t ∷ times)) e

pause_loop_to :
    (until now : ℕ) (times : List ℕ)
    → now < pause_loop until times
    → (now < until) ⊎ HasLoop times now
unfolding pause_loop
pause_loop_to until now [] h = inl h
pause_loop_to until now (t ∷ times) h =
    let o = get_elem? (t ∷ times) (crash_loop_fails - 1) in
    elim (pause_loop_to (later_pause until t o) now times h) [
      | inr (i, start, last, a, b, near, ahead) ↦
          inr (suc i, start, last, a, shift t i times ∙ b, near, ahead)
      | inl sooner ↦ elim (later_pause_to until t now o sooner) [
        | inl earlier ↦ inl earlier
        | inr (last, b, near, ahead) ↦ inr (0, t, last, refl, b, near, ahead)
      ]
    ]

pause_loop_keeps : (until now : ℕ) (times : List ℕ) → now < until → now < pause_loop until times
unfolding pause_loop
pause_loop_keeps until now [] h = h
pause_loop_keeps until now (t ∷ times) h =
    pause_loop_keeps (later_pause until t (get_elem? (t ∷ times) (crash_loop_fails - 1))) now times
      (later_pause_keeps until t now (get_elem? (t ∷ times) (crash_loop_fails - 1)) h)

pause_loop_from :
    (until now i start last : ℕ) (times : List ℕ)
    → get_elem? times i ≡ some start
    → get_elem? times (i + (crash_loop_fails - 1)) ≡ some last
    → last - start ≤ crash_loop_window
    → now < last + crash_loop_pause
    → now < pause_loop until times
unfolding pause_loop
pause_loop_from until now i start last [] a b near ahead = absurd (cc)
pause_loop_from until now zero start last (t ∷ times) a b near ahead =
    pause_loop_keeps (later_pause until t (get_elem? (t ∷ times) (crash_loop_fails - 1))) now times
      (subst (λ o. now < later_pause until t o) (sym b)
        (later_pause_starts until t now last
          (subst (λ z. last - z ≤ crash_loop_window) (sym (some_eq a)) near) ahead))
pause_loop_from until now (suc i) start last (t ∷ times) a b near ahead =
    pause_loop_from (later_pause until t (get_elem? (t ∷ times) (crash_loop_fails - 1))) now i start
      last times a (sym (shift t i times) ∙ b) near ahead

-- A version is paused exactly when some three failures in a row lie within ten minutes and fifteen
-- minutes have not yet passed since the last of them; the answer's time is then after now.
pub crash_loop_paused_until_lem :
    (times : List ℕ) (now : ℕ)
    → (((crash_loop_paused_until times now).1 ≡ true) ↔ HasLoop times now)
      × (((crash_loop_paused_until times now).1 ≡ true)
          ↔ (now < (crash_loop_paused_until times now).0))
unfolding crash_loop_paused_until
crash_loop_paused_until_lem times now = (
  (
    (λ h. elim (pause_loop_to 0 now times (ltb→lt now (pause_loop 0 times) h)) [
      | inl never ↦ absurd (omega arith)
      | inr found ↦ found
    ]),
    (λ f. let h = pause_loop_from 0 now f.0 f.1 f.2 times f.3 f.4 f.5 f.6 in ground arith),
  ),
  ground arith,
)
