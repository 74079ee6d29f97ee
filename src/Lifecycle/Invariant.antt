-- ===== src/Lifecycle/Invariant.antt =====
-- What the first call of `stop` has done where it stands.
use high_performance_gaming.Common.{
  ℕ, ◌+◌, ◌≡◌, ◌≢◌, Bool, true, false, ◌==◌, Bool-cases, inl, inr, arith, refl, sym, ◌∙◌, ap,
}
use high_performance_gaming.Common.Array.{update, update_self, update_ne}
use high_performance_gaming.Lifecycle.{
  Lifecycle, begin_stop, mark_complete, StopCall, at_begin, at_forward, at_plane, at_mark,
  at_return, Shutdown, if_made, begun, ShutdownStep, begins, stops_forward, stops_plane, marks,
  comes_back, destroys, Reach, started, by_step,
}

-- Whether a call is the one that stops the planes, and has not done so.
abbrev pub is_busy : StopCall → Bool
is_busy at_begin = false
is_busy at_forward = true
is_busy at_plane = true
is_busy at_mark = true
is_busy at_return = false

-- What the first call has done where it stands.
abbrev pub is_past : StopCall → Bool
is_past at_begin = false
is_past at_forward = true
is_past at_plane = true
is_past at_mark = true
is_past at_return = true

abbrev pub has_completed : StopCall → Bool
has_completed at_begin = false
has_completed at_forward = false
has_completed at_plane = false
has_completed at_mark = false
has_completed at_return = true

abbrev pub forwards : StopCall → ℕ
forwards at_begin = 0
forwards at_forward = 0
forwards at_plane = 1
forwards at_mark = 1
forwards at_return = 1

abbrev pub planes : StopCall → ℕ
planes at_begin = 0
planes at_forward = 0
planes at_plane = 0
planes at_mark = 1
planes at_return = 1

if_made_zero : (b : Bool) → if_made b 0 ≡ 0
if_made_zero true = refl
if_made_zero false = refl

one_more : (b : Bool) (n : ℕ) → n ≡ if_made b 0 → n + if_made b 1 ≡ if_made b 1
one_more true n e = omega (arith, e)
one_more false n e = omega (arith, e)

-- The call that came first, and the others.
pub record IsFirst (o : ℕ) (s : Shutdown) : Type 0 where
  pub begun_before : s.lifecycle.is_started ≡ true
  pub past : is_past (s.calls o) ≡ true
  pub completed : s.lifecycle.is_complete ≡ has_completed (s.calls o)
  pub forward_done : s.forward_stops ≡ if_made s.has_forward (forwards (s.calls o))
  pub plane_done : s.plane_stops ≡ if_made s.has_control (planes (s.calls o))
  pub alone : (j : ℕ) → o ≢ j → is_busy (s.calls j) ≡ false
  pub released : s.is_waiting ≡ false → s.lifecycle.is_complete ≡ true
  pub late : s.is_destroyed ≡ true → s.is_waiting ≡ false

pub record IsUntouched (s : Shutdown) : Type 0 where
  pub no_start : s.lifecycle.is_started ≡ false
  pub no_end : s.lifecycle.is_complete ≡ false
  pub no_forward : s.forward_stops ≡ 0
  pub no_plane : s.plane_stops ≡ 0
  pub waiting : s.is_waiting ≡ true
  pub standing : s.is_destroyed ≡ false
  pub nobody : (j : ℕ) → is_busy (s.calls j) ≡ false

pub data IsOrdered (s : Shutdown) : Type 0 where
  untouched : IsUntouched s → IsOrdered s
  first : (o : ℕ) → IsFirst o s → IsOrdered s

update-nobody :
    (c : ℕ → StopCall) (o i : ℕ) (v : StopCall)
    → ((j : ℕ) → o ≢ j → is_busy (c j) ≡ false)
    → is_busy v ≡ false
    → (j : ℕ) → o ≢ j
    → is_busy (update c i v j) ≡ false
update-nobody c o i v a b j h = ground (arith, a j h, b)

-- A busy call is the first one.
busy_first : (s : Shutdown) (o i : ℕ) → IsFirst o s → is_busy (s.calls i) ≡ true → o ≡ i
busy_first s o i f b = elim (Bool-cases (o == i)) [
  | inl e ↦ ground (arith, e)
  | inr e ↦ absurd (ground (arith, f.alone i (ground (arith, e)), b))
]

-- A change of one call that is not the first one leaves the first one where it is.
kept :
    (c : ℕ → StopCall) (o i : ℕ) (v : StopCall)
    → is_past (c o) ≡ true
    → c i ≡ at_begin
    → update c i v o ≡ c o
kept c o i v p h = elim (Bool-cases (i == o)) [
  | inl e ↦
      let same : o ≡ i = ground (arith, e) in absurd (ground (arith, p, ap is_past (ap c same ∙ h)))
  | inr e ↦ rw e refl
]

begun-IsOrdered :
    (s : Shutdown) (i : ℕ)
    → s.calls i ≡ at_begin
    → IsOrdered s
    → IsOrdered (begun i (begin_stop s.lifecycle) s)
unfolding begun begin_stop
begun-IsOrdered s i h (untouched u) = rw u.no_start (
    first i record {
      begun_before = refl;
      past = ap is_past (update_self s.calls i at_forward);
      completed = u.no_end ∙ sym (ap has_completed (update_self s.calls i at_forward));
      forward_done =
          u.no_forward
          ∙ sym (
              ap (λ c. if_made s.has_forward (forwards c)) (update_self s.calls i at_forward)
              ∙ if_made_zero s.has_forward);
      plane_done =
          u.no_plane
          ∙ sym (
              ap (λ c. if_made s.has_control (planes c)) (update_self s.calls i at_forward)
              ∙ if_made_zero s.has_control);
      alone = λ j n. ap is_busy (update_ne s.calls i j at_forward n) ∙ u.nobody j;
      released = λ w. absurd (ground (arith, u.waiting, w));
      late = λ d. absurd (ground (arith, u.standing, d));
    })
begun-IsOrdered s i h (first o f) =
    let same = kept s.calls o i at_return f.past h in
    rw f.begun_before (
      first o record {
        begun_before = refl;
        past = ap is_past same ∙ f.past;
        completed = f.completed ∙ sym (ap has_completed same);
        forward_done = f.forward_done ∙ sym (ap (λ c. if_made s.has_forward (forwards c)) same);
        plane_done = f.plane_done ∙ sym (ap (λ c. if_made s.has_control (planes c)) same);
        alone = update-nobody s.calls o i at_return f.alone refl;
        released = f.released;
        late = f.late;
      })

-- The first call goes on from `v` to `w`.
advanced :
    (s : Shutdown) (i : ℕ) (v w : StopCall) (l : Lifecycle) (forward plane : ℕ)
    → s.calls i ≡ v
    → is_busy v ≡ true
    → is_past w ≡ true
    → l.is_started ≡ s.lifecycle.is_started
    → (has_completed v ≡ s.lifecycle.is_complete → l.is_complete ≡ has_completed w)
    → (s.forward_stops ≡ if_made s.has_forward (forwards v)
        → forward ≡ if_made s.has_forward (forwards w))
    → (s.plane_stops ≡ if_made s.has_control (planes v) → plane ≡ if_made s.has_control (planes w))
    → (s.lifecycle.is_complete ≡ true → l.is_complete ≡ true)
    → IsOrdered s
    → IsOrdered record s {
      calls = update s.calls i w;
      lifecycle = l;
      forward_stops = forward;
      plane_stops = plane;
    }
advanced s i v w l forward plane h b p st co fo pl up (untouched u) =
    absurd (ground (arith, u.nobody i, ap is_busy h, b))
advanced s i v w l forward plane h b p st co fo pl up (first o f) =
    let same : o ≡ i = busy_first s o i f (ap is_busy h ∙ b) in
    let at : s.calls o ≡ v = ap s.calls same ∙ h in
    let now : update s.calls i w o ≡ w = ap (update s.calls i w) same ∙ update_self s.calls i w in
    first o record {
      begun_before = st ∙ f.begun_before;
      past = ap is_past now ∙ p;
      completed = co (sym (f.completed ∙ ap has_completed at)) ∙ sym (ap has_completed now);
      forward_done =
          fo (f.forward_done ∙ ap (λ c. if_made s.has_forward (forwards c)) at)
          ∙ sym (ap (λ c. if_made s.has_forward (forwards c)) now);
      plane_done =
          pl (f.plane_done ∙ ap (λ c. if_made s.has_control (planes c)) at)
          ∙ sym (ap (λ c. if_made s.has_control (planes c)) now);
      alone = λ j n. ap is_busy (update_ne s.calls i j w (λ e. n (same ∙ e))) ∙ f.alone j n;
      released = λ e. up (f.released e);
      late = f.late;
    }

step-IsOrdered : (s t : Shutdown) → ShutdownStep s t → IsOrdered s → IsOrdered t
unfolding mark_complete
step-IsOrdered s _ (begins i h) o = begun-IsOrdered s i h o
step-IsOrdered s _ (stops_forward i h) o =
    advanced s i at_forward at_plane s.lifecycle (s.forward_stops + if_made s.has_forward 1)
      s.plane_stops h refl refl refl (λ e. sym e) (λ e. one_more s.has_forward s.forward_stops e)
      (λ e. e) (λ e. e) o
step-IsOrdered s _ (stops_plane i h) o =
    advanced s i at_plane at_mark s.lifecycle s.forward_stops
      (s.plane_stops + if_made s.has_control 1) h refl refl refl (λ e. sym e) (λ e. e)
      (λ e. one_more s.has_control s.plane_stops e) (λ e. e) o
step-IsOrdered s _ (marks i h) o =
    advanced s i at_mark at_return (mark_complete s.lifecycle) s.forward_stops s.plane_stops h refl
      refl refl (λ e. refl) (λ e. e) (λ e. e) (λ e. refl) o
step-IsOrdered s _ (comes_back h) (untouched u) = absurd (ground (arith, u.no_end, h))
step-IsOrdered s _ (comes_back h) (first o f) = first o record {
  begun_before = f.begun_before;
  past = f.past;
  completed = f.completed;
  forward_done = f.forward_done;
  plane_done = f.plane_done;
  alone = f.alone;
  released = λ e. h;
  late = λ d. refl;
}
step-IsOrdered s _ (destroys w d) (untouched u) = absurd (ground (arith, u.waiting, w))
step-IsOrdered s _ (destroys w d) (first o f) = first o record {
  begun_before = f.begun_before;
  past = f.past;
  completed = f.completed;
  forward_done = f.forward_done;
  plane_done = f.plane_done;
  alone = f.alone;
  released = f.released;
  late = λ e. w;
}

pub Reach-IsOrdered : (s : Shutdown) → Reach s → IsOrdered s
Reach-IsOrdered _ (started forward control) = untouched record {
  no_start = refl;
  no_end = refl;
  no_forward = refl;
  no_plane = refl;
  waiting = refl;
  standing = refl;
  nobody = λ j. refl;
}
Reach-IsOrdered _ (by_step r m) = step-IsOrdered _ _ m (Reach-IsOrdered _ r)
