-- ===== src/Control/Shutdown.antt =====
-- Once `stop` has woken the control plane, its seven threads end, whatever the order of their steps.
pub mod Ending
use high_performance_gaming.Common.{
  ℕ, zero, suc, ◌+◌, ◌-◌, ◌<◌, ◌≤◌, ◌≡◌, ◌≢◌, ◌⊎◌, inl, inr, refl, arith, Bool, true, false, ◌==◌,
  Bool-cases, ap, ◌∙◌,
}
use high_performance_gaming.Common.Array.{update}
use high_performance_gaming.Network.LanSync.{LanInterface}
use high_performance_gaming.Scheduler.Float.{Float}
use high_performance_gaming.Worker.{StopAt, serving, halted, woken}
use high_performance_gaming.Control.{
  At, at_loop, at_wait, at_read, at_check, at_tick, at_end, thread_count, watchdog_service_count,
  Meets, Engines, Shared, Move, enters, leaves, finds, reads, period_over, interrupted, requested,
  fails, goes_on, gives_up, skips, serves, ControlPlane, ThreadStep, moves, OtherStep, requests,
  halts, wakes, Reach, started, by_thread, by_other,
}
use high_performance_gaming.Control.Counts.{total, total-update}

-- One for a thread that is still to end.
abbrev pub live : At → ℕ
live at_loop = 1
live at_wait = 1
live at_read = 1
live at_check = 1
live at_tick = 1
live at_end = 0

-- How many steps a thread can still make once `running_` is reset.
abbrev pub rank : At → ℕ
rank at_loop = 1
rank at_wait = 3
rank at_read = 1
rank at_check = 2
rank at_tick = 2
rank at_end = 0

live-le : (a : At) → live a ≤ 1
live-le at_loop = omega arith
live-le at_wait = omega arith
live-le at_read = omega arith
live-le at_check = omega arith
live-le at_tick = omega arith
live-le at_end = omega arith

total-live-le : (n : ℕ) (f : ℕ → At) → total live n f ≤ n
total-live-le zero f = omega arith
total-live-le (suc n) f = omega (arith, live-le (f n), total-live-le n f)

module _ {K : Type 0} (I : LanInterface K) (F : Float) where
  -- A step takes no token but from a thread that ends by it.
  Move-tokens :
      (i : ℕ) (running : Bool) (m m' : Shared I F) (a a' : At)
      → Move I F i running m a m' a'
      → m.watchdog_stop_efd + live a' ≤ m'.watchdog_stop_efd + live a
  Move-tokens i running m _ _ _ (enters r) = omega arith
  Move-tokens i running m _ _ _ (leaves r) = omega arith
  Move-tokens i running m _ _ _ (finds t) = omega arith
  Move-tokens i running m _ _ _ (reads t) = omega (arith, t)
  Move-tokens i running m _ _ _ (period_over h) = omega arith
  Move-tokens i running m _ _ _ (interrupted h) = omega arith
  Move-tokens i running m _ _ _ (requested h t c) = omega arith
  Move-tokens i running m _ _ _ fails = omega arith
  Move-tokens i running m _ _ _ (goes_on r) = omega arith
  Move-tokens i running m _ _ _ (gives_up h r) = omega arith
  Move-tokens i running m _ _ _ (skips h r) = omega arith
  Move-tokens i running m _ _ _ (serves w) = omega arith

  pub Move-nearer :
      (i : ℕ) (running : Bool) (m m' : Shared I F) (a a' : At)
      → running ≡ false
      → Move I F i running m a m' a'
      → rank a' < rank a
  Move-nearer i running m _ _ _ off (enters r) = absurd (ground (arith, off, r))
  Move-nearer i running m _ _ _ off (leaves r) = omega arith
  Move-nearer i running m _ _ _ off (finds t) = omega arith
  Move-nearer i running m _ _ _ off (reads t) = omega arith
  Move-nearer i running m _ _ _ off (period_over h) = omega arith
  Move-nearer i running m _ _ _ off (interrupted h) = omega arith
  Move-nearer i running m _ _ _ off (requested h t c) = omega arith
  Move-nearer i running m _ _ _ off fails = omega arith
  Move-nearer i running m _ _ _ off (goes_on r) = absurd (ground (arith, off, r))
  Move-nearer i running m _ _ _ off (gives_up h r) = omega arith
  Move-nearer i running m _ _ _ off (skips h r) = omega arith
  Move-nearer i running m _ _ _ off (serves w) = omega arith

  -- A step that the thread makes of its own accord: it does not wait for the end of a period, nor for `poll` to
  -- be interrupted or to fail.
  abbrev pub is_prompt :
      (i : ℕ) (running : Bool) (m m' : Shared I F) (a a' : At) → Move I F i running m a m' a' → Bool
  is_prompt i running m _ _ _ (enters r) = true
  is_prompt i running m _ _ _ (leaves r) = true
  is_prompt i running m _ _ _ (finds t) = true
  is_prompt i running m _ _ _ (reads t) = true
  is_prompt i running m _ _ _ (period_over h) = false
  is_prompt i running m _ _ _ (interrupted h) = false
  is_prompt i running m _ _ _ (requested h t c) = true
  is_prompt i running m _ _ _ fails = false
  is_prompt i running m _ _ _ (goes_on r) = true
  is_prompt i running m _ _ _ (gives_up h r) = true
  is_prompt i running m _ _ _ (skips h r) = true
  is_prompt i running m _ _ _ (serves w) = true

  abbrev pub HasMove : ℕ → Bool → Shared I F → At → Type 0
  HasMove i running m a =
      (m' : Shared I F) × (a' : At) × (move : Move I F i running m a m' a') × (is_prompt i running m
          m' a a' move
        ≡ true)

  -- A thread that has not ended has a step to make, where there is a token.
  pub Move-exists :
      (i : ℕ) (running : Bool) (m : Shared I F) (w : Meets) (a : At)
      → running ≡ false
      → i < thread_count
      → 0 < m.watchdog_stop_efd
      → (a ≡ at_end) ⊎ HasMove i running m a
  Move-exists i running m w at_loop off h t = inr (_, _, leaves off, refl)
  Move-exists i running m w at_wait off h t = inr (_, _, finds t, refl)
  Move-exists i running m w at_read off h t = inr (_, _, reads t, refl)
  Move-exists i running m w at_check off h t = elim (Bool-cases (i == watchdog_service_count)) [
    | inl last ↦ inr (_, _, skips (ground (arith, last)) off, refl)
    | inr service ↦ inr (_, _, gives_up (ground (arith, h, service)) off, refl)
  ]
  Move-exists i running m w at_tick off h t = inr (_, _, serves w, refl)
  Move-exists i running m w at_end off h t = inl refl

  -- What `stop` has done so far.
  abbrev pub Phase : StopAt → Bool → ℕ → ℕ → Type 0
  Phase serving running tokens n = (tokens ≡ 0)
  Phase halted running tokens n = (running ≡ false) × (tokens ≡ 0)
  Phase woken running tokens n = (running ≡ false) × (n ≤ tokens)

  abbrev pub InPhase : ControlPlane I F → Type 0
  InPhase s =
      Phase s.stop_at s.running s.shared.watchdog_stop_efd (total live thread_count s.threads)

  Phase-move :
      (at : StopAt) (running : Bool) (tokens tokens' n n' : ℕ)
      → tokens' ≤ tokens
      → tokens + n' ≤ tokens' + n
      → Phase at running tokens n
      → Phase at running tokens' n'
  Phase-move serving running tokens tokens' n n' less le p = omega (arith, p, less)
  Phase-move halted running tokens tokens' n n' less le (off, p) = (off, omega (arith, p, less))
  Phase-move woken running tokens tokens' n n' less le (off, p) = (off, omega (arith, p, le))

  Move-less :
      (i : ℕ) (running : Bool) (m m' : Shared I F) (a a' : At)
      → Move I F i running m a m' a'
      → m'.watchdog_stop_efd ≤ m.watchdog_stop_efd
  Move-less i running m _ _ _ (enters r) = omega arith
  Move-less i running m _ _ _ (leaves r) = omega arith
  Move-less i running m _ _ _ (finds t) = omega arith
  Move-less i running m _ _ _ (reads t) = omega arith
  Move-less i running m _ _ _ (period_over h) = omega arith
  Move-less i running m _ _ _ (interrupted h) = omega arith
  Move-less i running m _ _ _ (requested h t c) = omega arith
  Move-less i running m _ _ _ fails = omega arith
  Move-less i running m _ _ _ (goes_on r) = omega arith
  Move-less i running m _ _ _ (gives_up h r) = omega arith
  Move-less i running m _ _ _ (skips h r) = omega arith
  Move-less i running m _ _ _ (serves w) = omega arith

  thread-InPhase : (s t : ControlPlane I F) → ThreadStep I F s t → InPhase s → InPhase t
  thread-InPhase s _ (moves i m a h st) p =
      Phase-move s.stop_at s.running _ _ _ _ (Move-less i s.running s.shared m _ a st)
        (omega (
          arith,
          Move-tokens i s.running s.shared m _ a st,
          total-update live thread_count i s.threads a h,
        ))
        p

  other-InPhase : (s t : ControlPlane I F) → OtherStep I F s t → InPhase s → InPhase t
  other-InPhase s _ requests p = p
  other-InPhase s _ (halts h) p = let t = rw h at p in (refl, t)
  other-InPhase s _ (wakes h) p =
      let (off, t) = rw h at p in (off, omega (arith, t, total-live-le thread_count s.threads))

  pub Reach-InPhase : (e : Engines I F) (s : ControlPlane I F) → Reach I F e s → InPhase s
  Reach-InPhase e _ started = refl
  Reach-InPhase e _ (by_thread r t) = thread-InPhase _ _ t (Reach-InPhase e _ r)
  Reach-InPhase e _ (by_other r t) = other-InPhase _ _ t (Reach-InPhase e _ r)
