-- ===== src/DhcpEngine/Options/Scan.antt =====
-- The option loop comes to an end, and reads what was written.
use high_performance_gaming.Common.{
  ℕ, zero, suc, ◌+◌, ◌*◌, ◌-◌, ◌≤◌, ◌<◌, ◌≡◌, ◌≢◌, inl, inr, arith, refl, ap, ◌∙◌, sym, Option,
  none, some, ◌==◌, if◌then◌else◌, List, [], ◌∷◌, ◌++◌, Option-cases,
}
use high_performance_gaming.Common.Array.{length, length-append}
use high_performance_gaming.Net.Bytes.{Memory, load16, load32}
use high_performance_gaming.DhcpEngine.Options.{
  Cursor, take_option, option_round, option_loop, scan_options,
}

round-moves :
    (m : Memory) (end : ℕ) (c c' : Cursor)
    → option_round m end c ≡ some c'
    → (c.opt < end) × (c.opt < c'.opt) × (c'.opt ≤ end)
unfolding option_round take_option
round-moves m end c c' h = ground (arith, h)

option_loop-ends :
    (fuel : ℕ) (m : Memory) (end : ℕ) (c : Cursor)
    → end - c.opt < fuel
    → (last : Cursor) × (option_loop fuel m end c ≡ some last)
unfolding option_loop
option_loop-ends zero m end c h = absurd (omega arith)
option_loop-ends (suc fuel) m end c h = elim (Option-cases (option_round m end c)) [
  | inl e ↦ rw e (c, refl)
  | inr (c', e) ↦ rw e (option_loop-ends fuel m end c' (omega (arith, round-moves m end c c' e)))
]

-- An option as a client means it: a byte of padding, or a code with its data.
pub data DhcpOption : Type 0 where
  padding : DhcpOption
  option : ℕ → List ℕ → DhcpOption

abbrev pub IsOption : DhcpOption → Type 0
IsOption padding = Unit
IsOption (option code data_bytes) = (code ≢ 0) × (code ≢ 255) × (length data_bytes < 256)

abbrev pub AreOptions : List DhcpOption → Type 0
AreOptions [] = Unit
AreOptions (o ∷ os) = IsOption o × AreOptions os

abbrev pub encode : List DhcpOption → List ℕ
encode [] = 255 ∷ []
encode (padding ∷ os) = 0 ∷ encode os
encode (option code data_bytes ∷ os) = code ∷ length data_bytes ∷ (data_bytes ++ encode os)

-- The last message type and the last requested address that the options set.
abbrev pub set_by : DhcpOption → ℕ × ℕ → ℕ × ℕ
set_by padding (t, r) = (t, r)
set_by (option code (x ∷ [])) (t, r) = (if code == 53 then x else t, r)
set_by (option code (a ∷ b ∷ c ∷ d ∷ [])) (t, r) =
    (t, if code == 50 then a + 256 * b + 65536 * (c + 256 * d) else r)
set_by (option code _) (t, r) = (t, r)

abbrev pub meaning : List DhcpOption → ℕ × ℕ → ℕ × ℕ
meaning [] v = v
meaning (o ∷ os) v = meaning os (set_by o v)

-- The bytes stand in memory from this place on.
abbrev pub StandsAt : Memory → ℕ → List ℕ → Type 0
StandsAt m i [] = Unit
StandsAt m i (x ∷ xs) = (m i ≡ x) × StandsAt m (i + 1) xs

StandsAt-append :
    (m : Memory) (i : ℕ) (xs ys : List ℕ)
    → StandsAt m i (xs ++ ys)
    → StandsAt m i xs × StandsAt m (i + length xs) ys
StandsAt-append m i [] ys h = let e : i + 0 ≡ i = omega arith in (tt, rw e h)
StandsAt-append m i (x ∷ xs) ys h =
    let e : i + suc (length xs) ≡ i + 1 + length xs = omega arith in
    let rest = StandsAt-append m (i + 1) xs ys h.1 in ((h.0, rest.0), rw e rest.1)

take_moves :
    (m : Memory) (xs : List ℕ) (c : Cursor)
    → m (c.opt + 1) ≡ length xs
    → (take_option m c).opt ≡ c.opt + (2 + length xs)
unfolding take_option
take_moves m xs c l = omega (arith, l)

take_sets :
    (m : Memory) (code : ℕ) (xs : List ℕ) (c : Cursor)
    → m c.opt ≡ code
    → m (c.opt + 1) ≡ length xs
    → StandsAt m (c.opt + 2) xs
    → let c' = take_option m c in
      (c'.msg_type, c'.raw_requested_ip) ≡ set_by (option code xs) (c.msg_type, c.raw_requested_ip)
unfolding take_option load32 load16
take_sets m code [] c e l h = ground (arith, e, l)
take_sets m code (x ∷ []) c e l h = ground (arith, e, l, h)
take_sets m code (x ∷ y ∷ []) c e l h = ground (arith, e, l)
take_sets m code (x ∷ y ∷ z ∷ []) c e l h = ground (arith, e, l)
take_sets m code (x ∷ y ∷ z ∷ w ∷ []) c e l h =
    let p1 : c.opt + 2 + 1 + 1 ≡ c.opt + 2 + 2 = omega arith in
    let p2 : c.opt + 2 + 1 + 1 + 1 ≡ c.opt + 2 + 2 + 1 = omega arith in
    ground (arith, e, l, h, p1, p2)
take_sets m code (x ∷ y ∷ z ∷ w ∷ v ∷ xs) c e l h = ground (arith, e, l)

-- A round of the loop at an option that stands there with all its data.
round_option :
    (m : Memory) (end code : ℕ) (xs : List ℕ) (c : Cursor)
    → code ≢ 0
    → code ≢ 255
    → m c.opt ≡ code
    → m (c.opt + 1) ≡ length xs
    → c.opt + 2 + length xs ≤ end
    → option_round m end c ≡ some (take_option m c)
unfolding option_round
round_option m end code xs c n0 n255 e l fit = ground (arith, e, l)

round_padding :
    (m : Memory) (end : ℕ) (c : Cursor)
    → m c.opt ≡ 0
    → c.opt < end
    → option_round m end c ≡ some (record c { opt = c.opt + 1 })
unfolding option_round
round_padding m end c e h = ground (arith, e)

round_end : (m : Memory) (end : ℕ) (c : Cursor) → m c.opt ≡ 255 → option_round m end c ≡ none
unfolding option_round
round_end m end c e = ground (arith, e)

-- What the loop comes to with the cursor at the code of the options.
pub record Read (os : List DhcpOption) (c : Cursor) (r : Option Cursor) : Type 0 where
  pub last : Cursor
  pub returns : r ≡ some last
  pub values : (last.msg_type, last.raw_requested_ip) ≡ meaning os (c.msg_type, c.raw_requested_ip)

option_loop-Read :
    (fuel : ℕ) (m : Memory) (end : ℕ) (os : List DhcpOption) (c : Cursor)
    → AreOptions os
    → StandsAt m c.opt (encode os)
    → c.opt + length (encode os) ≤ end
    → end - c.opt < fuel
    → Read os c (option_loop fuel m end c)
unfolding option_loop
option_loop-Read zero m end os c a h fit f = absurd (omega arith)
option_loop-Read (suc fuel) m end [] c a h fit f =
    rw (round_end m end c h.0) (record { last = c; returns = refl; values = refl })
option_loop-Read (suc fuel) m end (padding ∷ os) c a h fit f =
    let r =
      option_loop-Read fuel m end os (record c { opt = c.opt + 1 }) a.1 h.1 (omega arith)
        (omega arith) in
    rw (round_padding m end c h.0 (omega arith))
      (record { last = r.last; returns = r.returns; values = r.values })
option_loop-Read (suc fuel) m end (option code xs ∷ os) c a h fit f =
    let c' = take_option m c in
    let at2 : c.opt + 1 + 1 ≡ c.opt + 2 = omega arith in
    let parts = StandsAt-append m (c.opt + 2) xs (encode os) (rw (sym at2) h.1.1) in
    let moves = take_moves m xs c h.1.0 in
    let behind : c.opt + 2 + length xs ≡ c'.opt = omega (arith, moves) in
    let sets = take_sets m code xs c h.0 h.1.0 parts.0 in
    let len = length-append xs (encode os) in
    let r =
      option_loop-Read fuel m end os c' a.1 (rw (sym behind) parts.1) (omega (arith, moves, len))
        (omega (arith, moves, len)) in
    rw (round_option m end code xs c a.0.0 a.0.1 h.0 h.1.0 (omega (arith, len)))
      (record { last = r.last; returns = r.returns; values = r.values ∙ ap (meaning os) sets })

-- Whatever the bytes are, the loop comes to an end.
pub scan_options-ends :
    (m : Memory) (start end : ℕ) → (last : Cursor) × (scan_options m start end ≡ some last)
unfolding scan_options
scan_options-ends m start end = option_loop-ends (suc (end - start)) m end _ (omega arith)

-- Where the bytes from `start` on are a list of options as a client writes them, with the end mark
-- within the message: the loop ends with the last message type and the last requested address that
-- they set, or 0.
pub scan_options-encode :
    (m : Memory) (start end : ℕ) (os : List DhcpOption)
    → AreOptions os
    → StandsAt m start (encode os)
    → start + length (encode os) ≤ end
    → (last : Cursor) × (scan_options m start end ≡ some last)
      × ((last.msg_type, last.raw_requested_ip) ≡ meaning os (0, 0))
unfolding scan_options
scan_options-encode m start end os a h fit =
    let r =
      option_loop-Read (suc (end - start)) m end os
        (record { opt = start; msg_type = 0; raw_requested_ip = 0 }) a h fit (omega arith) in
    (r.last, r.returns, r.values)
