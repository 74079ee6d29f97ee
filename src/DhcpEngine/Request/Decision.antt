-- ===== src/DhcpEngine/Request/Decision.antt =====
-- Which addresses are offered, acknowledged and refused.
use high_performance_gaming.Common.{ℕ, ◌≡◌, ◌≢◌, ◌⊎◌, inl, inr, arith, refl, sym, ◌∙◌, some}
use high_performance_gaming.DhcpEngine.Pool.{DhcpEngine, find_or_assign_lease, commit_lease}
use high_performance_gaming.DhcpEngine.Pool.Invariant.{IsValid, find_or_assign_lease-IsValid}
use high_performance_gaming.DhcpEngine.Pool.Grant.{
  Holds, find_or_assign_lease-Holds, find_or_assign_lease_again, commit_lease-Holds,
}
use high_performance_gaming.DhcpEngine.Options.{Cursor}
use high_performance_gaming.DhcpEngine.Request.{Reply, answer_discover, answer_request, respond}

abbrev pub discover : Cursor
discover = record { opt = 0; msg_type = 1; raw_requested_ip = 0 }

abbrev pub request : ℕ → Cursor
request ip = record { opt = 0; msg_type = 3; raw_requested_ip = ip }

-- A reply that gives an address, in an offer or an acknowledgement.
abbrev pub Gives : Reply → ℕ → Type 0
Gives reply ip = (reply ≡ some (2, ip)) ⊎ (reply ≡ some (5, ip))

discover_lem :
    (r : ℕ × DhcpEngine) (ip : ℕ)
    → (answer_discover r).0 ≡ some (2, ip)
    → (r.0 ≡ ip) × (ip ≢ 0) × ((answer_discover r).1 ≡ r.1)
unfolding answer_discover
discover_lem (offered, e) ip h = ground (arith, h)

request_lem :
    (ip now' : ℕ) (e : DhcpEngine)
    → answer_request ip now' (ip, e) ≡ (some (5, ip), commit_lease e ip now')
unfolding answer_request
request_lem ip now' e = ground arith

respond_discover :
    (e : DhcpEngine) (mac ciaddr : ℕ) (c : Cursor) (now now' : ℕ)
    → c.msg_type ≡ 1
    → respond e mac ciaddr c now now' ≡ answer_discover (find_or_assign_lease e mac now)
unfolding respond
respond_discover e mac ciaddr c now now' h = ground (arith, h)

respond_request :
    (e : DhcpEngine) (mac ciaddr : ℕ) (c : Cursor) (now now' : ℕ)
    → c.msg_type ≡ 3
    → c.raw_requested_ip ≢ 0
    → respond e mac ciaddr c now now'
      ≡ answer_request c.raw_requested_ip now' (find_or_assign_lease e mac now)
unfolding respond
respond_request e mac ciaddr c now now' h ne = ground (arith, h, ne)

given-Holds :
    (e : DhcpEngine) (mac now ip : ℕ)
    → (find_or_assign_lease e mac now).0 ≡ ip
    → ip ≢ 0
    → Holds (find_or_assign_lease e mac now).1 mac ip
given-Holds e mac now ip h ne = elim (find_or_assign_lease-Holds e mac now) [
  | inl held ↦ rw h at held
  | inr (zero_ip, _, _) ↦ absurd (ne (sym h ∙ zero_ip))
]

-- What the request of an address comes to where the device holds it.
request_held :
    (e : DhcpEngine) (mac ip : ℕ) (d : Cursor) (ciaddr t t' : ℕ)
    → IsValid e
    → Holds e mac ip
    → ip ≢ 0
    → d.msg_type ≡ 3
    → d.raw_requested_ip ≡ ip
    → respond e mac ciaddr d t t' ≡ (some (5, ip), commit_lease e ip t')
request_held e mac ip d ciaddr t t' v held ne hd hr =
    respond_request e mac ciaddr d t t' hd (rw hr ne)
    ∙ rw (hr, find_or_assign_lease_again e mac ip t v held) (request_lem ip t' e)

-- In a valid pool, a device that is offered an address and then, at any later time and with no other
-- message in between, requests it, is sent an acknowledgement of this address; it then holds a lease
-- for it in a valid pool.
pub discover-request :
    (e : DhcpEngine) (mac ip : ℕ) (c d : Cursor) (ciaddr now now' ciaddr' t t' : ℕ)
    → IsValid e
    → c.msg_type ≡ 1
    → d.msg_type ≡ 3
    → d.raw_requested_ip ≡ ip
    → (respond e mac ciaddr c now now').0 ≡ some (2, ip)
    → let (reply, e') = respond (respond e mac ciaddr c now now').1 mac ciaddr' d t t' in
      (reply ≡ some (5, ip)) × Holds e' mac ip × IsValid e'
discover-request e mac ip c d ciaddr now now' ciaddr' t t' v hc hd hr offered =
    let way = respond_discover e mac ciaddr c now now' hc in
    let e1 = (find_or_assign_lease e mac now).1 in
    let lem = discover_lem (find_or_assign_lease e mac now) ip (rw way at offered) in
    let v1 : IsValid e1 = find_or_assign_lease-IsValid e mac now v in
    let held : Holds e1 mac ip = given-Holds e mac now ip lem.0 lem.1 in
    let acked = request_held e1 mac ip d ciaddr' t t' v1 held lem.1 hd hr in
    let done = commit_lease-Holds e1 mac ip t' v1 held in
    rw (way, lem.2, acked) (refl, done.1, done.0)
