-- ===== src/Network/LanSync/Gateway.antt =====
-- The gateway is an address of the LAN interface, in the subnet of the pool.
use high_performance_gaming.Common.{
  ℕ, ◌≤◌, ◌≡◌, ◌≢◌, inl, inr, refl, arith, Bool, true, false, ltb, Bool-cases, Option, none, some,
  sym, ap, ◌∙◌,
}
use high_performance_gaming.Net.Bytes.{ntohl}
use high_performance_gaming.Network.Subnet.{ipv4_in_subnet, infer_prefix_covering_pool}
use high_performance_gaming.Network.Subnet.Covering.{in_subnet-top, infer_prefix-covers}
use high_performance_gaming.DhcpEngine.Service.{set_router_ip}
use high_performance_gaming.Network.LanSync.{
  SyncResult, synced, bad_pool_start, bad_pool_end, pool_reversed, bad_prefix, bad_router_ip,
  set_iface_failed, router_outside_pool, lan_outside_pool, LanSettings, LanInterface, Lan, Synced,
  get_local_ip, use_gateway, in_pool_subnet, after_set, check_lan, sync_pool, sync_ends, sync,
}

shares_subnet :
    (pool_start pool_end gateway ip : ℕ)
    → ntohl pool_start ≤ ntohl pool_end
    → let p = infer_prefix_covering_pool pool_start pool_end in
      (ipv4_in_subnet gateway (some p) pool_start ≡ true)
      → ntohl pool_start ≤ ntohl ip
      → ntohl ip ≤ ntohl pool_end
      → ipv4_in_subnet ip (some p) gateway ≡ true
shares_subnet pool_start pool_end gateway ip order inside lo hi =
    let p = infer_prefix_covering_pool pool_start pool_end in
    let (fits, covers, least) = infer_prefix-covers pool_start pool_end order in
    let of_ip = (in_subnet-top ip p pool_start fits).0 (covers ip lo hi) in
    let of_gateway = (in_subnet-top gateway p pool_start fits).0 inside in
    (in_subnet-top ip p gateway fits).1 (of_ip ∙ sym of_gateway)

module _ {K : Type 0} (I : LanInterface K) where
  -- What `sync` can come to: an error, with the server as it was, or a gateway that the kernel has on the
  -- LAN, in the subnet of the pool.
  pub data Outcome (c : LanSettings) (s : Lan I) : Synced I → Type 0 where
    refused :
        (r : SyncResult) (t : Lan I)
        → r ≢ synced
        → t.dhcp ≡ s.dhcp
        → t.effective_lan_gateway ≡ s.effective_lan_gateway
        → Outcome c s (r, t)
    accepted :
        (pool_start pool_end gateway : ℕ) (t : Lan I)
        → c.dhcp_pool_start ≡ some pool_start
        → c.dhcp_pool_end ≡ some pool_end
        → ntohl pool_start ≤ ntohl pool_end
        → get_local_ip I t.kernel ≡ some gateway
        → ipv4_in_subnet gateway (some (infer_prefix_covering_pool pool_start pool_end)) pool_start
          ≡ true
        → t.effective_lan_gateway ≡ gateway
        → t.dhcp ≡ set_router_ip s.dhcp gateway
        → Outcome c s (synced, t)

  -- The settings are fit, and nothing but the kernel has changed since `s`.
  record Ready (c : LanSettings) (s : Lan I) (pool_start pool_end : ℕ) (t : Lan I) : Type 0 where
    start_there : c.dhcp_pool_start ≡ some pool_start
    end_there : c.dhcp_pool_end ≡ some pool_end
    in_order : ntohl pool_start ≤ ntohl pool_end
    dhcp_same : t.dhcp ≡ s.dhcp
    gateway_same : t.effective_lan_gateway ≡ s.effective_lan_gateway

  use-Outcome :
      (c : LanSettings) (s t : Lan I) (pool_start pool_end : ℕ) (kern : Option ℕ)
      → Ready c s pool_start pool_end t
      → get_local_ip I t.kernel ≡ kern
      → let ok =
          in_pool_subnet I (infer_prefix_covering_pool pool_start pool_end) pool_start kern in
        Outcome c s (use_gateway I ok kern t)
  use-Outcome c s t pool_start pool_end none r h =
      refused lan_outside_pool t (λ e. ground (arith, e)) r.dhcp_same r.gateway_same
  use-Outcome c s t pool_start pool_end (some ip) r h =
      go (ipv4_in_subnet ip (some (infer_prefix_covering_pool pool_start pool_end)) pool_start) refl
    where
      go :
          (ok : Bool)
          → ipv4_in_subnet ip (some (infer_prefix_covering_pool pool_start pool_end)) pool_start
            ≡ ok
          → Outcome c s (use_gateway I ok (some ip) t)
      go false e = refused lan_outside_pool t (λ e. ground (arith, e)) r.dhcp_same r.gateway_same
      go true e =
          accepted pool_start pool_end ip _ r.start_there r.end_there r.in_order h e refl
            (ap (λ d. set_router_ip d ip) r.dhcp_same)

  set-Outcome :
      (c : LanSettings) (s t : Lan I) (pool_start pool_end : ℕ) (done : Bool × K)
      → Ready c s pool_start pool_end t
      → Outcome c s (after_set I (infer_prefix_covering_pool pool_start pool_end) pool_start done t)
  unfolding after_set
  set-Outcome c s t pool_start pool_end (false, k) r =
      refused set_iface_failed _ (λ e. ground (arith, e)) r.dhcp_same r.gateway_same
  set-Outcome c s t pool_start pool_end (true, k) r =
      use-Outcome c s (record t { kernel = k }) pool_start pool_end _
        (record {
          start_there = r.start_there;
          end_there = r.end_there;
          in_order = r.in_order;
          dhcp_same = r.dhcp_same;
          gateway_same = r.gateway_same;
        })
        refl

  check-Outcome :
      (c : LanSettings) (s t : Lan I) (pool_start pool_end router : ℕ)
      → Ready c s pool_start pool_end t
      → Outcome c s
          (check_lan I (infer_prefix_covering_pool pool_start pool_end) pool_start router t)
  unfolding check_lan
  check-Outcome c s t pool_start pool_end router r =
      let prefix = infer_prefix_covering_pool pool_start pool_end in
      elim (Bool-cases (in_pool_subnet I prefix pool_start (get_local_ip I t.kernel))) [
        | inl ok ↦
            let used = use-Outcome c s t pool_start pool_end (get_local_ip I t.kernel) r refl in
            rw ok (rw ok at used)
        | inr out ↦ elim (Bool-cases (ipv4_in_subnet router (some prefix) pool_start)) [
          | inl inside ↦ rw (out, inside) (set-Outcome c s t pool_start pool_end _ r)
          | inr outside ↦
              rw (out, outside)
                (refused router_outside_pool t (λ e. ground (arith, e)) r.dhcp_same r.gateway_same)
        ]
      ]

  pool-Outcome :
      (c : LanSettings) (s : Lan I) (pool_start pool_end : ℕ) (apply : Bool) (router : Option ℕ)
      → Ready c s pool_start pool_end s
      → Outcome c s (sync_pool I apply router pool_start pool_end s)
  unfolding sync_pool
  pool-Outcome c s pool_start pool_end apply none r =
      refused bad_router_ip s (λ e. ground (arith, e)) refl refl
  pool-Outcome c s pool_start pool_end false (some router) r =
      check-Outcome c s s pool_start pool_end router r
  pool-Outcome c s pool_start pool_end true (some router) r =
      check-Outcome c s _ pool_start pool_end router (record {
        start_there = r.start_there;
        end_there = r.end_there;
        in_order = r.in_order;
        dhcp_same = refl;
        gateway_same = refl;
      })

  ends-Outcome :
      (c : LanSettings) (s : Lan I) (apply : Bool) (router first last : Option ℕ)
      → c.dhcp_pool_start ≡ first
      → c.dhcp_pool_end ≡ last
      → Outcome c s (sync_ends I apply router first last s)
  unfolding sync_ends
  ends-Outcome c s apply router none last hf hl =
      refused bad_pool_start s (λ e. ground (arith, e)) refl refl
  ends-Outcome c s apply router (some first) none hf hl =
      refused bad_pool_end s (λ e. ground (arith, e)) refl refl
  ends-Outcome c s apply router (some first) (some last) hf hl =
      elim (Bool-cases (ltb (ntohl last) (ntohl first))) [
        | inl b ↦ rw b (refused pool_reversed s (λ e. ground (arith, e)) refl refl)
        | inr b ↦ elim (Bool-cases (ltb 32 (infer_prefix_covering_pool first last))) [
          | inl d ↦ rw (b, d) (refused bad_prefix s (λ e. ground (arith, e)) refl refl)
          | inr d ↦
              rw (b, d)
                (pool-Outcome c s first last apply router (record {
                  start_there = hf;
                  end_there = hl;
                  in_order = ground (arith, b);
                  dhcp_same = refl;
                  gateway_same = refl;
                }))
        ]
      ]

  -- With any settings and any behaviour of the interface: `sync` either reports an error and leaves the
  -- server and the gateway as they were, or the settings are in order and the new gateway is an address
  -- that the kernel has on the LAN, in the subnet of the pool, and the server gives it out. It may be
  -- another address than the router's in the settings.
  pub sync-Outcome : (c : LanSettings) (s : Lan I) → Outcome c s (sync I c s)
  unfolding sync
  sync-Outcome c s = ends-Outcome c s _ c.router_ip _ _ refl refl

  -- After a successful `sync`, every address between the pool's start and its end is in the subnet that
  -- the inferred prefix makes round the gateway that the server gives out.
  pub sync-on_link :
      (c : LanSettings) (s t : Lan I) (pool_start pool_end ip : ℕ)
      → sync I c s ≡ (synced, t)
      → c.dhcp_pool_start ≡ some pool_start
      → c.dhcp_pool_end ≡ some pool_end
      → ntohl pool_start ≤ ntohl ip
      → ntohl ip ≤ ntohl pool_end
      → ipv4_in_subnet ip (some (infer_prefix_covering_pool pool_start pool_end)) t.dhcp.router_ip
        ≡ true
  unfolding set_router_ip
  sync-on_link c s t pool_start pool_end ip e hs he lo hi =
      go (synced, t) (rw e at (sync-Outcome c s)) refl
    where
      go :
          (r : Synced I)
          → Outcome c s r
          → r ≡ (synced, t)
          → ipv4_in_subnet ip
              (some (infer_prefix_covering_pool pool_start pool_end))
              t.dhcp.router_ip
            ≡ true
      go _ (refused r t' bad d g) same = absurd (bad (ap (λ x. x.0) same))
      go _ (accepted first last gateway t' hf hl order at inside eff served) same =
          let at_first : first ≡ pool_start = ground (arith, hf, hs) in
          let at_last : last ≡ pool_end = ground (arith, hl, he) in
          let gives : t.dhcp.router_ip ≡ gateway =
            sym (ap (λ x. x.1.dhcp.router_ip) same) ∙ ap (λ d. d.router_ip) served in
          rw gives (
            shares_subnet pool_start pool_end gateway ip (rw (at_first, at_last) at order)
              (rw (at_first, at_last) at inside) lo hi)
