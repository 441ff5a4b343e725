-- ===== src/Witnesses/OfBoots.antt =====
-- Addresses and the hosts of DHCP: runs of the theorems.
use valve_infra.Base.{arith, ℕ, ◌≡◌, refl, some, List, [], ◌∷◌, All, if◌then◌else◌}
use valve_infra.Base.Text.{codes, ◌=b◌}
use valve_infra.Base.Result.{ok}
use valve_infra.Message.Framing.{Bytes}
use valve_infra.Boots.{split_mac_addr}
use valve_infra.Boots.Hosts.{
  Host, add_static_address, join_colons, parse_dhcp_hosts, render, rstrip,
}
use valve_infra.Boots.Hosts.Lines.{IsHost, parse_dhcp_hosts-render}
use valve_infra.Boots.Hosts.Refines.{host_of, add_static_address_lem}

-- "A" and "0"
abbrev pair : ℕ × ℕ
pair = (65, 48)

abbrev mac : Bytes
mac = codes "a0:a0:a0:a0:a0:a0"

abbrev host : Host
host = record { mac_addr = mac; ip_addr = codes "::1"; hostname = codes "x" }

parse_dhcp_hosts-render_example : parse_dhcp_hosts (render (host ∷ [])) ≡ ok (host ∷ [])
unfolding rstrip
parse_dhcp_hosts-render_example = parse_dhcp_hosts-render (host ∷ []) (ground arith, tt)

abbrev other : Host
other = record { mac_addr = codes "b0:b0:b0:b0:b0:b0"; ip_addr = codes "::2"; hostname = codes "y" }

add_static_address_example :
    (file' : Bytes) × (hosts' : List Host) × (add_static_address mac
        (codes "::1")
        (codes "x")
        (render (other ∷ []))
      ≡ ok file')
    × (parse_dhcp_hosts file' ≡ ok hosts')
    × All IsHost hosts'
    × ((k : Bytes) → host_of k hosts' ≡ (if mac =b k then some host else host_of k (other ∷ [])))
unfolding split_mac_addr rstrip join_colons parse_dhcp_hosts render
add_static_address_example =
    add_static_address_lem mac (codes "::1") (codes "x") (render (other ∷ []))
      (codes "a0" ∷ codes "a0" ∷ codes "a0" ∷ codes "a0" ∷ codes "a0" ∷ codes "a0" ∷ [])
      (other ∷ []) refl (ground arith) refl (ground arith, tt)
