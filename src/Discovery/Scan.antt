-- ===== src/Discovery/Scan.antt =====
-- Which hosts `scan` of backend/app/services/discovery_service.py probes, and what it finds.
use ops_monitor.Discovery.Allowed.{append_nil}
use ops_monitor.Common.{
  ◌≡◌, List, String, true, length, Option, ◌∙◌, ◌==◌, ℕ, refl, arith, false, some, map, ◌++◌,
  sort_by, if◌then◌else◌, ◌∷◌, All, [], ◌≤◌, inl, any, Bool-cases, ltb, inr, All-map, Option-cases,
  All-sort_by, subst, sym,
}
use ops_monitor.Discovery.{
  IpNetwork, IpAddress, World, Found, DiscoverySettings, open_port, hosts, subnet_of, same_version,
  v4, v6, Version, scan, scan_port, parse_networks, probe_all, open_hosts,
}
use ops_monitor.Discovery.Allowed.{
  Between, OpenOne, hosts-Between, Has-parse, of_Has-parse, map_each-probe, open_hosts-OpenOne,
  Has-open_hosts, Has-sort_by,
}
use ops_monitor.Common.Action.{ok, pure}
use ops_monitor.Common.Action.Post.{Post}
use ops_monitor.Common.Table.Elements.{any-Has, Has-any}
use ops_monitor.Common.Table.Laws.{Has}

eq_same_version : (a b : Version) → same_version a b ≡ true → a ≡ b
eq_same_version v4 v4 q = refl
eq_same_version v4 v6 q = cc
eq_same_version v6 v4 q = cc
eq_same_version v6 v6 q = refl

-- The addresses of a network are addresses of a network that it is in.
subnet-Between :
    (a b : IpNetwork)
    → subnet_of a b ≡ true
    → (h : IpAddress) → Between a.version a.network_address a.broadcast_address h
    → Between b.version b.network_address b.broadcast_address h
subnet-Between a b s h (v, l, u) =
    (v ∙ eq_same_version a.version b.version (ground arith), ground arith, ground arith)

filled : {A : Type 0} (x : A) (xs : List A) → Has x xs → (length xs == 0) ≡ false
filled x [] h = absurd h
filled x (y ∷ ys) h = ground arith

module _ (ip_network : String → Option IpNetwork) (settings : DiscoverySettings) (cidr : String)
    (port : Option ℕ) (w : World) where
  -- What a scan that is not refused has done: with the discovery enabled, it has probed each host
  -- of its target once and no other, all of them addresses of one network of the settings and no
  -- more than the settings allow, and it has found exactly those whose port is open.
  pub record IsScan (found : List Found) (w' : World) : Type 0 where
    pub enabled : settings.discovery_enabled ≡ true
    pub target : IpNetwork
    pub of_target : ip_network cidr ≡ some target
    pub network : IpNetwork
    pub allowed :
        (text : String) × Has text settings.discovery_allowed_cidrs
        × (ip_network text ≡ some network)
    pub within :
        All
          (Between network.version network.network_address network.broadcast_address)
          (hosts target)
    pub few : length (hosts target) ≤ settings.discovery_max_hosts
    pub probed :
        w'.probed ≡ w.probed ++ map (λ h. (h, scan_port ip_network settings port)) (hosts target)
    pub sound :
        All
          (OpenOne ip_network settings (scan_port ip_network settings port) w (hosts target))
          found
    pub complete :
        (h : IpAddress) (banner : Option String)
        → Has h (hosts target)
        → w.answers h (scan_port ip_network settings port) ≡ open_port banner
        → Has (record { ip = h; port = scan_port ip_network settings port; banner = banner }) found

  abbrev nets : List IpNetwork
  nets = parse_networks ip_network settings settings.discovery_allowed_cidrs

  abbrev at_port : ℕ
  at_port = scan_port ip_network settings port

  abbrev answered : List IpAddress → List Found
  answered hs = open_hosts ip_network settings at_port hs (map (λ h. w.answers h at_port) hs)

  abbrev after : List IpAddress → World
  after hs = record w { probed = w.probed ++ map (λ h. (h, at_port)) hs }

  probe_all_lem :
      (hs : List IpAddress)
      → probe_all ip_network settings at_port hs w
        ≡ ok (sort_by (λ f. f.ip.value) (answered hs), after hs)
  unfolding probe_all
  probe_all_lem hs = rw (map_each-probe ip_network settings at_port w hs w.probed) refl

  abbrev results : List IpAddress → List Found
  results hs = sort_by (λ f. f.ip.value) (answered hs)

  probe_hosts :
      (hs : List IpAddress)
      → (if length hs == 0 then pure [] else probe_all ip_network settings at_port hs) w
        ≡ ok (results hs, after hs)
  unfolding sort_by
  probe_hosts [] = rw (append_nil w.probed) refl
  probe_hosts (h ∷ hs) =
      let z : (length (h ∷ hs) == 0) ≡ false = filled h (h ∷ hs) (inl refl) in
      rw z (probe_all_lem (h ∷ hs))

  -- A scan that passes each check.
  scan_lem :
      (target : IpNetwork)
      → settings.discovery_enabled ≡ true
      → (length nets == 0) ≡ false
      → ip_network cidr ≡ some target
      → any (subnet_of target) nets ≡ true
      → ltb settings.discovery_max_hosts (length (hosts target)) ≡ false
      → scan ip_network settings cidr port w ≡ ok (results (hosts target), after (hosts target))
  unfolding scan
  scan_lem target d l t a m = rw (d, l, t, a, m) (probe_hosts (hosts target))

  passed-IsScan :
      (target : IpNetwork)
      → settings.discovery_enabled ≡ true
      → ip_network cidr ≡ some target
      → any (subnet_of target) nets ≡ true
      → ltb settings.discovery_max_hosts (length (hosts target)) ≡ false
      → IsScan (results (hosts target)) (after (hosts target))
  passed-IsScan target d t a m =
      let n = any-Has (subnet_of target) nets a in
      record {
        enabled = d;
        target = target;
        of_target = t;
        network = n.0;
        allowed = of_Has-parse ip_network settings n.0 settings.discovery_allowed_cidrs n.1.0;
        within =
            All-map (Between target.version target.network_address target.broadcast_address)
              (Between n.0.version n.0.network_address n.0.broadcast_address)
              (subnet-Between target n.0 n.1.1) (hosts target) (hosts-Between target);
        few = ground arith;
        probed = refl;
        sound =
            All-sort_by (OpenOne ip_network settings at_port w (hosts target)) (λ f. f.ip.value)
              (answered (hosts target))
              (open_hosts-OpenOne ip_network settings at_port w (hosts target));
        complete = λ h banner k q.
            Has-sort_by (λ f. f.ip.value) _ (answered (hosts target))
              (Has-open_hosts ip_network settings at_port w h banner (hosts target) k q);
      }

  -- A scan that is not refused keeps to the networks of the settings, as `IsScan` says; and a scan
  -- of a network that is in one of these and not too large is not refused.
  pub scan-IsScan :
      Post IsScan (scan ip_network settings cidr port w)
      × ((target network : IpNetwork) (text : String)
          → settings.discovery_enabled ≡ true
          → Has text settings.discovery_allowed_cidrs
          → ip_network text ≡ some network
          → ip_network cidr ≡ some target
          → subnet_of target network ≡ true
          → length (hosts target) ≤ settings.discovery_max_hosts
          → (found : List Found) × (w' : World) × (scan ip_network settings cidr port w
              ≡ ok (found, w')))
  unfolding scan
  scan-IsScan = (
    elim (Bool-cases settings.discovery_enabled) [
      | inr d ↦ rw d tt
      | inl d ↦ elim (Bool-cases (length nets == 0)) [
        | inl l ↦ rw (d, l) tt
        | inr l ↦ elim (Option-cases (ip_network cidr)) [
          | inl t ↦ rw (d, l, t) tt
          | inr t ↦ elim (Bool-cases (any (subnet_of t.0) nets)) [
            | inr a ↦ rw (d, l, t.1, a) tt
            | inl a ↦ elim (Bool-cases (ltb settings.discovery_max_hosts (length (hosts t.0)))) [
              | inl m ↦ rw (d, l, t.1, a, m) tt
              | inr m ↦
                  subst (Post IsScan) (sym (scan_lem t.0 d l t.1 a m)) (passed-IsScan t.0 d t.1 a m)
            ]
          ]
        ]
      ]
    ],
    λ target network text d h n t s m.
        let k : Has network nets =
          Has-parse ip_network settings network text settings.discovery_allowed_cidrs h n in
        let few : ltb settings.discovery_max_hosts (length (hosts target)) ≡ false = ground arith in
        (
          results (hosts target),
          after (hosts target),
          scan_lem target d (filled network nets k) t (Has-any (subnet_of target) network nets k s)
              few,
        ),
  )
