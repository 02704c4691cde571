-- ===== src/Discovery/Allowed.antt =====
-- The parts of a scan of backend/app/services/discovery_service.py: the hosts of a network, the
-- networks of the settings, the answers of the probes.
use ops_monitor.Common.{
  ℕ, All, String, ◌≡◌, ◌≤◌, Option, insert_by, sort_by, ◌+◌, List, map, some, ◌∷◌, ◌⊎◌, Bool-cases,
  ◌++◌, inr, [], suc, inl, All-map, arith, leb, subst, ◌-◌, ap, zero, refl, sym, none, ◌∙◌,
}
use ops_monitor.Discovery.{
  IpNetwork, IpAddress, Version, v4, v6, World, Found, DiscoverySettings, Answer, closed, open_port,
  hosts, count_from, range, end_of_hosts, parse_networks, probe, open_hosts,
}
use ops_monitor.Common.Action.{map_each, ok}
use ops_monitor.Common.Table.Laws.{Has}

abbrev pub Between : Version → (first last : ℕ) → IpAddress → Type 0
Between version first last h = (h.version ≡ version) × (first ≤ h.value) × (h.value ≤ last)

-- A run of numbers, made into addresses.
count_from-Between :
    (version : Version) (first last a n : ℕ)
    → first ≤ a
    → a + n ≤ last + 1
    → All
        (Between version first last)
        (map (λ value. record { version = version; value = value }) (count_from a n))
count_from-Between version first last a zero l u = tt
count_from-Between version first last a (suc n) l u = (
  (refl, l, omega arith),
  count_from-Between version first last (suc a) n (omega arith) (omega arith),
)

range-Between :
    (version : Version) (first last a b : ℕ)
    → first ≤ a
    → b ≤ last + 1
    → All
        (Between version first last)
        (map (λ value. record { version = version; value = value }) (range a b))
range-Between version first last a b l u = elim (Bool-cases (leb a b)) [
  | inl t ↦ count_from-Between version first last a (b - a) l (ground arith)
  | inr n ↦ let z : b - a ≡ 0 = ground arith in rw z tt
]

-- Every host of a network is an address of it.
pub hosts-Between :
    (n : IpNetwork) → All (Between n.version n.network_address n.broadcast_address) (hosts n)
unfolding hosts
hosts-Between n = elim (Bool-cases (leb n.broadcast_address (n.network_address + 1))) [
  | inl t ↦ rw t (
      range-Between n.version n.network_address n.broadcast_address n.network_address
        (n.broadcast_address + 1) (omega arith) (omega arith))
  | inr f ↦ rw f (
      range-Between n.version n.network_address n.broadcast_address (n.network_address + 1)
        (end_of_hosts n.version n.broadcast_address) (omega arith) (end_le n.version))
]
  where
    end_le : (v : Version) → end_of_hosts v n.broadcast_address ≤ n.broadcast_address + 1
    end_le v4 = omega arith
    end_le v6 = omega arith

module _ (ip_network : String → Option IpNetwork) (settings : DiscoverySettings)
    (network : IpNetwork) where
  -- The network of a text, in front of the others.
  and_rest : Option IpNetwork → List IpNetwork → List IpNetwork
  and_rest o rest = elim o [ none ↦ rest | some n ↦ n ∷ rest ]

  pub Has-parse :
      (text : String) (texts : List String)
      → Has text texts
      → ip_network text ≡ some network
      → Has network (parse_networks ip_network settings texts)
  unfolding parse_networks and_rest
  Has-parse text [] h e = absurd h
  Has-parse text (t ∷ texts) (inl q) e =
      let f : ip_network t ≡ some network = subst (λ x. ip_network x ≡ some network) q e in
      subst (λ o. Has network (and_rest o (parse_networks ip_network settings texts))) (sym f)
        (inl refl)
  Has-parse text (t ∷ texts) (inr h) e = go (ip_network t) (Has-parse text texts h e)
    where
      rest : List IpNetwork
      rest = parse_networks ip_network settings texts

      go : (o : Option IpNetwork) → Has network rest → Has network (and_rest o rest)
      go none k = k
      go (some n) k = inr k

  pub of_Has-parse :
      (texts : List String)
      → Has network (parse_networks ip_network settings texts)
      → (text : String) × Has text texts × (ip_network text ≡ some network)
  unfolding parse_networks and_rest
  of_Has-parse [] h = absurd h
  of_Has-parse (t ∷ texts) h =
      go (ip_network t) refl h (λ k. let r = of_Has-parse texts k in (r.0, inr r.1, r.2))
    where
      rest : List IpNetwork
      rest = parse_networks ip_network settings texts

      go :
          (o : Option IpNetwork)
          → ip_network t ≡ o
          → Has network (and_rest o rest)
          → (Has network rest
              → (text : String) × Has text (t ∷ texts) × (ip_network text ≡ some network))
          → (text : String) × Has text (t ∷ texts) × (ip_network text ≡ some network)
      go none q k below = below k
      go (some n) q (inl e) below = (t, inl refl, q ∙ ap some (sym e))
      go (some n) q (inr k) below = below k

pub append_nil : {A : Type 0} (xs : List A) → xs ++ [] ≡ xs
append_nil [] = refl
append_nil (x ∷ xs) = rw (append_nil xs) refl

append_cons : {A : Type 0} (xs : List A) (y : A) (ys : List A) → (xs ++ y ∷ []) ++ ys ≡ xs ++ y ∷ ys
append_cons [] y ys = refl
append_cons (x ∷ xs) y ys = rw (append_cons xs y ys) refl

module _ (ip_network : String → Option IpNetwork) (settings : DiscoverySettings) (port : ℕ)
    (w : World) where
  -- The answers of the hosts, which are probed in order.
  pub map_each-probe :
      (hs : List IpAddress) (before : List (IpAddress × ℕ))
      → map_each hs (probe ip_network settings port) (record w { probed = before })
        ≡ ok (
          map (λ h. w.answers h port) hs,
          record w { probed = before ++ map (λ h. (h, port)) hs },
        )
  unfolding map_each probe
  map_each-probe [] before = rw (append_nil before) refl
  map_each-probe (h ∷ hs) before =
      rw
        (
          map_each-probe hs (before ++ (h, port) ∷ []),
          append_cons before (h, port) (map (λ h. (h, port)) hs),
        )
        refl

  abbrev pub OpenOne : List IpAddress → Found → Type 0
  OpenOne hs f = Has f.ip hs × (f.port ≡ port) × (w.answers f.ip port ≡ open_port f.banner)

  later : (h : IpAddress) (hs : List IpAddress) (f : Found) → OpenOne hs f → OpenOne (h ∷ hs) f
  later h hs f (a, b, c) = (inr a, b, c)

  pub open_hosts-OpenOne :
      (hs : List IpAddress)
      → All (OpenOne hs) (open_hosts ip_network settings port hs (map (λ h. w.answers h port) hs))
  open_hosts-OpenOne [] = tt
  open_hosts-OpenOne (h ∷ hs) =
      go (w.answers h port) refl
        (All-map (OpenOne hs) (OpenOne (h ∷ hs)) (later h hs) _ (open_hosts-OpenOne hs))
    where
      rest : List Found
      rest = open_hosts ip_network settings port hs (map (λ h. w.answers h port) hs)

      go :
          (a : Answer)
          → w.answers h port ≡ a
          → All (OpenOne (h ∷ hs)) rest
          → All
              (OpenOne (h ∷ hs))
              (open_hosts ip_network settings port (h ∷ hs) (a ∷ map (λ h. w.answers h port) hs))
      go closed q r = r
      go (open_port banner) q r = ((inl refl, refl, q), r)

  pub Has-open_hosts :
      (h : IpAddress) (banner : Option String) (hs : List IpAddress)
      → Has h hs
      → w.answers h port ≡ open_port banner
      → Has
          (record { ip = h; port = port; banner = banner })
          (open_hosts ip_network settings port hs (map (λ h. w.answers h port) hs))
  Has-open_hosts h banner [] k q = absurd k
  Has-open_hosts h banner (x ∷ hs) (inl e) q =
      let p : w.answers x port ≡ open_port banner =
        subst (λ y. w.answers y port ≡ open_port banner) e q in
      rw p (inl (ap (λ y. record { ip = y; port = port; banner = banner }) e))
  Has-open_hosts h banner (x ∷ hs) (inr k) q =
      go (w.answers x port) (Has-open_hosts h banner hs k q)
    where
      go :
          (a : Answer)
          → Has
              (record { ip = h; port = port; banner = banner })
              (open_hosts ip_network settings port hs (map (λ h. w.answers h port) hs))
          → Has
              (record { ip = h; port = port; banner = banner })
              (open_hosts ip_network settings port (x ∷ hs) (a ∷ map (λ h. w.answers h port) hs))
      go closed r = r
      go (open_port b) r = inr r

module _ {A : Type 0} (key : A → ℕ) where
  Has-insert_by : (a x : A) (xs : List A) → (a ≡ x) ⊎ Has a xs → Has a (insert_by key x xs)
  unfolding insert_by
  Has-insert_by a x [] h = h
  Has-insert_by a x (y ∷ ys) h = elim (Bool-cases (leb (key x) (key y))) [
    | inl t ↦ rw t h
    | inr n ↦ rw n (elim h [
      | inl q ↦ inr (Has-insert_by a x ys (inl q))
      | inr (inl q) ↦ inl q
      | inr (inr k) ↦ inr (Has-insert_by a x ys (inr k))
    ])
  ]

  pub Has-sort_by : (a : A) (xs : List A) → Has a xs → Has a (sort_by key xs)
  unfolding sort_by
  Has-sort_by a [] h = absurd h
  Has-sort_by a (x ∷ xs) (inl q) = Has-insert_by a x (sort_by key xs) (inl q)
  Has-sort_by a (x ∷ xs) (inr h) = Has-insert_by a x (sort_by key xs) (inr (Has-sort_by a xs h))
