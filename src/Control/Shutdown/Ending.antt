-- ===== src/Control/Shutdown/Ending.antt =====
-- How far a woken control plane is from its end.
use high_performance_gaming.Common.{
  ℕ, ◌==◌, ==_iff, Bool-cases, zero, suc, ◌+◌, ◌<◌, ◌≤◌, ◌≡◌, ◌⊎◌, inl, inr, refl, arith, ◌∙◌, ap,
  false,
}
use high_performance_gaming.Network.LanSync.{LanInterface}
use high_performance_gaming.Scheduler.Float.{Float}
use high_performance_gaming.Worker.{woken}
use high_performance_gaming.Control.{
  At, at_loop, at_wait, at_read, at_check, at_tick, at_end, thread_count, Meets, Engines,
  ControlPlane, ThreadStep, moves, OtherStep, requests, halts, wakes, Reach, by_thread, by_other,
}
use high_performance_gaming.Control.Counts.{total, total-update}
use high_performance_gaming.Control.Shutdown.{
  live, rank, HasMove, Move-nearer, Move-exists, Reach-InPhase,
}

-- A thread that has not ended counts among the live ones.
live_one : (n i : ℕ) (f : ℕ → At) → i < n → (f i ≡ at_end) ⊎ (0 < total live n f)
live_one zero i f h = absurd (omega (arith, h))
live_one (suc n) i f h = elim (Bool-cases (i == n)) [
  | inl same ↦ last (f n) refl ((==_iff i n).0 same)
  | inr other ↦ elim (live_one n i f (ground (arith, h, other))) [
    | inl ended ↦ inl ended
    | inr some_live ↦ inr (omega (arith, some_live))
  ]
]
  where
    last : (a : At) → f n ≡ a → i ≡ n → (f i ≡ at_end) ⊎ (0 < total live (suc n) f)
    last at_end e same = inl (ap f same ∙ e)
    last at_loop e same = inr (omega (arith, ap live e))
    last at_wait e same = inr (omega (arith, ap live e))
    last at_read e same = inr (omega (arith, ap live e))
    last at_check e same = inr (omega (arith, ap live e))
    last at_tick e same = inr (omega (arith, ap live e))

module _ {K : Type 0} (I : LanInterface K) (F : Float) where
  abbrev pub steps_left : ControlPlane I F → ℕ
  steps_left s = total rank thread_count s.threads

  -- A run, with the number of the steps that the threads make.
  pub data Runs (s : ControlPlane I F) : ℕ → ControlPlane I F → Type 0 where
    stays : Runs s 0 s
    thread_steps :
        {n : ℕ} {t u : ControlPlane I F} → Runs s n t → ThreadStep I F t u → Runs s (suc n) u
    other_steps : {n : ℕ} {t u : ControlPlane I F} → Runs s n t → OtherStep I F t u → Runs s n u

  Runs-Reach :
      (e : Engines I F) (s : ControlPlane I F) (n : ℕ) (t : ControlPlane I F)
      → Reach I F e s
      → Runs s n t
      → Reach I F e t
  Runs-Reach e s _ _ r stays = r
  Runs-Reach e s _ _ r (thread_steps q st) = by_thread (Runs-Reach e s _ _ r q) st
  Runs-Reach e s _ _ r (other_steps q st) = by_other (Runs-Reach e s _ _ r q) st

  thread-nearer :
      (s t : ControlPlane I F)
      → ThreadStep I F s t
      → s.running ≡ false
      → (t.stop_at ≡ s.stop_at) × (steps_left t < steps_left s)
  thread-nearer s _ (moves i m a h st) off = (
    refl,
    omega (
      arith,
      Move-nearer I F i s.running s.shared m _ a off st,
      total-update rank thread_count i s.threads a h,
    ),
  )

  other-same :
      (s t : ControlPlane I F)
      → OtherStep I F s t
      → s.stop_at ≡ woken
      → (t.stop_at ≡ woken) × (steps_left t ≡ steps_left s)
  other-same s _ requests h = (h, refl)
  other-same s _ (halts e) h = absurd (ground (arith, e, h))
  other-same s _ (wakes e) h = absurd (ground (arith, e, h))

  Runs-nearer :
      (e : Engines I F) (s : ControlPlane I F) (n : ℕ) (t : ControlPlane I F)
      → Reach I F e s
      → s.stop_at ≡ woken
      → Runs s n t
      → (t.stop_at ≡ woken) × (n + steps_left t ≤ steps_left s)
  Runs-nearer e s _ _ r h stays = (h, omega arith)
  Runs-nearer e s _ _ r h (thread_steps {t} {u} q st) =
      let (at, le) = Runs-nearer e s _ _ r h q in
      let (off, tokens) = rw at at (Reach-InPhase I F e t (Runs-Reach e s _ _ r q)) in
      let (same, less) = thread-nearer t u st off in (same ∙ at, omega (arith, le, less))
  Runs-nearer e s _ _ r h (other_steps {t} {u} q st) =
      let (at, le) = Runs-nearer e s _ _ r h q in
      let (at', same) = other-same t u st at in (at', omega (arith, le, same))

  progress :
      (e : Engines I F) (s : ControlPlane I F) (w : Meets) (i : ℕ)
      → Reach I F e s
      → s.stop_at ≡ woken
      → i < thread_count
      → (s.threads i ≡ at_end) ⊎ HasMove I F i s.running s.shared (s.threads i)
  progress e s w i r h lt =
      let (off, tokens) = rw h at (Reach-InPhase I F e s r) in
      elim (live_one thread_count i s.threads lt) [
        | inl ended ↦ inl ended
        | inr some_live ↦
            Move-exists I F i s.running s.shared w (s.threads i) off lt
              (omega (arith, tokens, some_live))
      ]

  -- Once `stop` has woken the control plane: in any run from there, the seven threads together make at most
  -- `steps_left` steps, and at its end each of them has ended or can make a step of its own, one that waits
  -- neither for the end of a period nor for `poll` to be interrupted or to fail.
  pub stop-ends_all :
      (e : Engines I F) (s : ControlPlane I F) (n : ℕ) (t : ControlPlane I F) (w : Meets)
      → Reach I F e s
      → s.stop_at ≡ woken
      → Runs s n t
      → (n ≤ steps_left s)
        × ((i : ℕ)
            → i < thread_count
            → (t.threads i ≡ at_end) ⊎ HasMove I F i t.running t.shared (t.threads i))
  stop-ends_all e s n t w r h q =
      let (at, le) = Runs-nearer e s n t r h q in
      (omega (arith, le), λ i lt. progress e t w i (Runs-Reach e s n t r q) at lt)
