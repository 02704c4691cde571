-- ===== src/Discovery/Tests.antt =====
-- A scan of a network of six hosts, two of which answer.
use ops_monitor.Common.{
  String, true, if◌then◌else◌, none, List, length, Option, ◌∷◌, leb, [], ◌≡◌, str_eq, ◌&&◌, refl,
  some, ltb, ◌==◌,
}
use ops_monitor.Discovery.{IpNetwork, World, Found, DiscoverySettings, closed, open_port, v4, scan}
use ops_monitor.Discovery.Scan.{IsScan, scan-IsScan}
use ops_monitor.Common.Action.Post.{Post}
use ops_monitor.Common.Action.{Result, ok, err}

abbrev ip_network : String → Option IpNetwork
ip_network text =
    if str_eq text "10.0.0.0/24"
    then some (record { version = v4; network_address = 167772160; broadcast_address = 167772415 })
    else if str_eq text "10.0.0.8/29"
    then some (record { version = v4; network_address = 167772168; broadcast_address = 167772175 })
    else none

abbrev lan : DiscoverySettings
lan = record {
  discovery_enabled = true;
  discovery_allowed_cidrs = "office" ∷ "10.0.0.0/24" ∷ [];
  discovery_max_hosts = 256;
  discovery_ssh_port = 22;
}

abbrev two_up : World
two_up = record {
  answers = λ h port.
      if leb 167772172 h.value && (ltb h.value 167772174 && port == 22)
      then open_port (some "SSH-2.0")
      else closed;
  probed = [];
}

scan-IsScan_example :
    Post
      (IsScan ip_network lan "10.0.0.8/29" none two_up)
      (scan ip_network lan "10.0.0.8/29" none two_up)
scan-IsScan_example = (scan-IsScan ip_network lan "10.0.0.8/29" none two_up).0

abbrev found_by : Result (List Found × World) → List Found
found_by (ok (found, _)) = found
found_by (err _) = []

-- The scan is not refused.
two_found : length (found_by (scan ip_network lan "10.0.0.8/29" none two_up)) ≡ 2
unfolding scan
two_found = refl
