-- ===== src/Discovery.antt =====
-- The discovery of servers: backend/app/services/discovery_service.py, with what it uses of
-- Python's `ipaddress`. Reading an address or a network from its text, and a probe of a host, which
-- is a TCP connection, are parameters.
mod Allowed
mod Scan
mod Tests
use ops_monitor.Common.Action.{◌>>◌}
use ops_monitor.Common.Action.{◌>>=◌}
use ops_monitor.Common.{
  ℕ, Bool, List, Option, String, true, [], ◌-◌, ◌+◌, map, ◌&&◌, ◌∷◌, any, ◌++◌, sort_by, some,
  false, if◌then◌else◌, leb, none, suc, zero, not, length, ◌==◌, ltb,
}
use ops_monitor.Common.Action.{Action, ok, pure, or_raise, raise_if, map_each}
use ops_monitor.Exceptions.{app, forbidden, bad_request}

-- An IPv4 or IPv6 address as a number, and a network by its first and last address.
pub data Version : Type 0 where
  v4 v6 : Version

pub record IpAddress : Type 0 where
  pub version : Version
  pub value : ℕ

pub record IpNetwork : Type 0 where
  pub version : Version
  pub network_address : ℕ
  pub broadcast_address : ℕ

abbrev pub same_version : Version → Version → Bool
same_version v4 v4 = true
same_version v6 v6 = true
same_version _ _ = false

-- `n` numbers from `a` on, and `range(a, b)`.
abbrev pub count_from : ℕ → ℕ → List ℕ
count_from a zero = []
count_from a (suc n) = a ∷ count_from (suc a) n

abbrev pub range : ℕ → ℕ → List ℕ
range a b = count_from a (b - a)

-- `hosts()`: a network of one or two addresses has them all; else the first is left out, and in
-- IPv4 the last.
abbrev pub end_of_hosts : Version → ℕ → ℕ
end_of_hosts v4 broadcast = broadcast
end_of_hosts v6 broadcast = broadcast + 1

unfoldable pub hosts : IpNetwork → List IpAddress
hosts n =
    map (λ value. record { version = n.version; value = value })
      (if leb n.broadcast_address (n.network_address + 1)
        then range n.network_address (n.broadcast_address + 1)
        else range (n.network_address + 1) (end_of_hosts n.version n.broadcast_address))

-- `subnet_of`, where two versions, which raise a TypeError, are passed over.
abbrev pub subnet_of : IpNetwork → IpNetwork → Bool
subnet_of a b =
    same_version a.version b.version
    && (leb b.network_address a.network_address && leb a.broadcast_address b.broadcast_address)

-- The answer of a probe, with its banner.
pub data Answer : Type 0 where
  closed : Answer
  open_port : (banner : Option String) → Answer

pub record World : Type 0 where
  pub answers : IpAddress → (port : ℕ) → Answer
  pub probed : List (IpAddress × ℕ)

pub record Found : Type 0 where
  pub ip : IpAddress
  pub port : ℕ
  pub banner : Option String

pub record DiscoverySettings : Type 0 where
  pub discovery_enabled : Bool
  pub discovery_allowed_cidrs : List String
  pub discovery_max_hosts : ℕ
  pub discovery_ssh_port : ℕ

module _ (ip_network : String → Option IpNetwork) (settings : DiscoverySettings) where
  -- `_parse_networks`: texts that are no network are passed over.
  unfoldable pub parse_networks : List String → List IpNetwork
  parse_networks [] = []
  parse_networks (cidr ∷ cidrs) =
      let rest = parse_networks cidrs in elim (ip_network cidr) [ none ↦ rest | some n ↦ n ∷ rest ]

  abbrev pub is_within_allowed : IpNetwork → List IpNetwork → Bool
  is_within_allowed target allowed = any (subnet_of target) allowed

  -- `port or settings.DISCOVERY_SSH_PORT`
  abbrev pub scan_port : Option ℕ → ℕ
  scan_port none = settings.discovery_ssh_port
  scan_port (some zero) = settings.discovery_ssh_port
  scan_port (some (suc n)) = suc n

  unfoldable pub probe : (port : ℕ) → IpAddress → Action World Answer
  probe port host w = ok (w.answers host port, record w { probed = w.probed ++ (host, port) ∷ [] })

  abbrev pub open_hosts : (port : ℕ) → List IpAddress → List Answer → List Found
  open_hosts port (h ∷ hs) (closed ∷ answers) = open_hosts port hs answers
  open_hosts port (h ∷ hs) (open_port banner ∷ answers) =
      record { ip = h; port = port; banner = banner } ∷ open_hosts port hs answers
  open_hosts port _ _ = []

  -- The pool hands the answers on in the order of the hosts.
  unfoldable pub probe_all : (port : ℕ) → List IpAddress → Action World (List Found)
  unfolding map_each probe sort_by
  probe_all port hs = do
    answers ← map_each hs (probe port)
    pure (sort_by (λ f. f.ip.value) (open_hosts port hs answers))

  unfoldable pub scan : (cidr : String) → (port : Option ℕ) → Action World (List Found)
  unfolding parse_networks hosts probe_all
  scan cidr port = do
    raise_if (not settings.discovery_enabled) (app forbidden)
    raise_if (length (parse_networks settings.discovery_allowed_cidrs) == 0) (app forbidden)
    target ← or_raise (ip_network cidr) (app bad_request)
    raise_if (not (is_within_allowed target (parse_networks settings.discovery_allowed_cidrs)))
        (app forbidden)
    raise_if (ltb settings.discovery_max_hosts (length (hosts target))) (app bad_request)
    (if length (hosts target) == 0 then pure [] else probe_all (scan_port port) (hosts target))
