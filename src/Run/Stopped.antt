-- ===== src/Run/Stopped.antt =====
-- Once the workers are told to stop, the results of the run are settled.
use schedbench.Base.{
  ◌-◌, ◌≡◌, refl, ◌∙◌, true, false, List, [], ◌∷◌, arith, if◌then◌else◌, ◌==◌, Bool-cases, inl, inr,
}
use schedbench.Base.Int.{ℤ}
use schedbench.Base.Outcome.{returns}
use schedbench.Run.{
  Event, report, done, timeout, interrupt, Loop, Next, go_on, leave, Status, finished, left_early,
  waiting, state, step, loop,
}

module _ {W : Type 0} where
  -- The results, and the calls made on the workers, are those of `s`.
  pub record IsSettled (s t : Loop W) : Type 0 where
    pub stopped : t.stopped ≡ true
    pub raw : t.raw ≡ s.raw
    pub completed : t.completed ≡ s.completed
    pub err : t.err ≡ s.err
    pub shut : t.shut ≡ s.shut
    pub dumped : t.dumped ≡ s.dumped

  IsSettled-trans : {s t u : Loop W} → IsSettled s t → IsSettled t u → IsSettled s u
  IsSettled-trans p q = ground arith

  abbrev next_state : Next W → Loop W
  next_state (go_on t) = t
  next_state (leave t) = t

  -- A stopped loop takes any event without panic.
  step-IsSettled :
      (runtime : ℤ) (e : Event) (s : Loop W)
      → s.stopped ≡ true
      → (n : Next W) × (step runtime e s ≡ returns n) × IsSettled s (next_state n)
  unfolding step
  step-IsSettled runtime (report r) s h = (go_on s, ground arith, ground arith)
  step-IsSettled runtime (done did) s h =
      (go_on (record s { left = s.left - 1 }), ground arith, ground arith)
  step-IsSettled runtime timeout s h = (go_on s, ground arith, ground arith)
  step-IsSettled runtime interrupt s h = (leave s, ground arith, ground arith)

  -- The loop by one round.
  pub loop-go_on :
      (runtime : ℤ) (e : Event) (es : List Event) (s t : Loop W)
      → (s.left == 0) ≡ false
      → step runtime e s ≡ returns (go_on t)
      → loop runtime (e ∷ es) s ≡ loop runtime es t
  unfolding loop
  loop-go_on runtime e es s t more round = ground arith

  loop-leave :
      (runtime : ℤ) (e : Event) (es : List Event) (s t : Loop W)
      → (s.left == 0) ≡ false
      → step runtime e s ≡ returns (leave t)
      → loop runtime (e ∷ es) s ≡ returns (left_early t)
  unfolding loop
  loop-leave runtime e es s t more round = ground arith

  pub loop-over :
      (runtime : ℤ) (e : Event) (es : List Event) (s : Loop W)
      → (s.left == 0) ≡ true
      → loop runtime (e ∷ es) s ≡ returns (finished s)
  unfolding loop
  loop-over runtime e es s over = ground arith

  -- One round, and what the rest of the loop does from where it leads.
  loop-next :
      (runtime : ℤ) (e : Event) (es : List Event) (s : Loop W) (n : Next W)
      → (s.left == 0) ≡ false
      → step runtime e s ≡ returns n
      → IsSettled s (next_state n)
      → ((t : Loop W)
          → t.stopped ≡ true
          → (r : Status W) × (loop runtime es t ≡ returns r) × IsSettled t (state r))
      → (r : Status W) × (loop runtime (e ∷ es) s ≡ returns r) × IsSettled s (state r)
  loop-next runtime e es s (go_on t) more round settled rest =
      let (r, ends, same) = rest t settled.stopped in
      (r, loop-go_on runtime e es s t more round ∙ ends, IsSettled-trans settled same)
  loop-next runtime e es s (leave t) more round settled rest =
      (left_early t, loop-leave runtime e es s t more round, settled)

  -- After the stop the loop goes on to its end without panic, and no event changes the results.
  pub loop-IsSettled :
      (runtime : ℤ) (es : List Event) (s : Loop W)
      → s.stopped ≡ true
      → (r : Status W) × (loop runtime es s ≡ returns r) × IsSettled s (state r)
  unfolding loop
  loop-IsSettled runtime [] s h =
      (if s.left == 0 then finished s else waiting s, refl, ground arith)
  loop-IsSettled runtime (e ∷ es) s h = elim (Bool-cases (s.left == 0)) [
    | inl over ↦ (finished s, loop-over runtime e es s over, ground arith)
    | inr more ↦
        let (n, round, settled) = step-IsSettled runtime e s h in
        loop-next runtime e es s n more round settled (loop-IsSettled runtime es)
  ]
