-- ===== src/Boots/Hosts/Refines.antt =====
-- boots.py: `add_static_address` keeps, in a file, a map from hardware addresses to hosts.
use valve_infra.Base.{
  Bool, true, false, ◌≡◌, refl, ap, ◌∙◌, Option, none, some, List, [], ◌∷◌, ◌++◌, arith, All,
  All-append, if◌then◌else◌, or_else, Bool-cases, inl, inr,
}
use valve_infra.Base.Text.{◌=b◌, =b_iff, precedes, precedes_irrefl}
use valve_infra.Base.Result.{ok}
use valve_infra.Message.Framing.{Bytes}
use valve_infra.Boots.{split_mac_addr}
use valve_infra.Boots.Hosts.{
  Host, parse_dhcp_hosts, render, others, sort_in, sorted, join_colons, add_static_address,
}
use valve_infra.Boots.Hosts.Lines.{IsHost, parse_dhcp_hosts-render}

-- The host that a file has for an address.
abbrev pub host_of : Bytes → List Host → Option Host
host_of k [] = none
host_of k (h ∷ hosts) = if h.mac_addr =b k then some h else host_of k hosts

host_of-others :
    (k mac : Bytes) (hosts : List Host)
    → host_of k (others mac hosts) ≡ (if mac =b k then none else host_of k hosts)
unfolding others
host_of-others k mac [] = ground arith
host_of-others k mac (h ∷ hosts) =
    ground
      (arith, =b_iff h.mac_addr mac, =b_iff h.mac_addr k, =b_iff mac k, host_of-others k mac hosts)

host_of-append :
    (k : Bytes) (hosts more : List Host)
    → host_of k (hosts ++ more) ≡ or_else (host_of k hosts) (host_of k more)
host_of-append k [] more = refl
host_of-append k (h ∷ hosts) more = ground (arith, host_of-append k hosts more)

host_of-sort_in :
    (k : Bytes) (h : Host) (hosts : List Host) → host_of k (sort_in h hosts) ≡ host_of k (h ∷ hosts)
unfolding sort_in
host_of-sort_in k h [] = refl
host_of-sort_in k h (g ∷ hosts) =
    ground (
      arith,
      =b_iff h.mac_addr k,
      =b_iff g.mac_addr k,
      precedes_irrefl k,
      host_of-sort_in k h hosts,
    )

host_of-sorted : (k : Bytes) (hosts : List Host) → host_of k (sorted hosts) ≡ host_of k hosts
unfolding sorted
host_of-sorted k [] = refl
host_of-sorted k (h ∷ hosts) =
    ground (arith, host_of-sort_in k h (sorted hosts), host_of-sorted k hosts)

others-IsHost : (mac : Bytes) (hosts : List Host) → All IsHost hosts → All IsHost (others mac hosts)
unfolding others
others-IsHost mac [] good = tt
others-IsHost mac (h ∷ hosts) (good, goods) = elim (Bool-cases (h.mac_addr =b mac)) [
  | inl same ↦ rw same (others-IsHost mac hosts goods)
  | inr other ↦ rw other (good, others-IsHost mac hosts goods)
]

sort_in-IsHost :
    (h : Host) (hosts : List Host) → IsHost h → All IsHost hosts → All IsHost (sort_in h hosts)
unfolding sort_in
sort_in-IsHost h [] good goods = (good, tt)
sort_in-IsHost h (g ∷ hosts) good (first, goods) =
    elim (Bool-cases (precedes g.mac_addr h.mac_addr)) [
      | inl before ↦ rw before (first, sort_in-IsHost h hosts good goods)
      | inr behind ↦ rw behind (good, (first, goods))
    ]

sorted-IsHost : (hosts : List Host) → All IsHost hosts → All IsHost (sorted hosts)
unfolding sorted
sorted-IsHost [] good = tt
sorted-IsHost (h ∷ hosts) (good, goods) =
    sort_in-IsHost h (sorted hosts) good (sorted-IsHost hosts goods)

replaced :
    (b : Bool) (o : Option Host) (h : Host)
    → or_else (if b then none else o) (if b then some h else none) ≡ (if b then some h else o)
replaced true o h = refl
replaced false none h = refl
replaced false (some g) h = refl

-- Where the file holds hosts, and the address is one of hardware, and the new host fits on a line,
-- the file that is left can be read, holds the new host under its address and under every other
-- address what it held before.
pub add_static_address_lem :
    (mac ip hostname file : Bytes) (pieces : List Bytes) (hosts : List Host)
    → split_mac_addr mac ≡ ok pieces
    → IsHost (record { mac_addr = join_colons pieces; ip_addr = ip; hostname = hostname })
    → parse_dhcp_hosts file ≡ ok hosts
    → All IsHost hosts
    → (file' : Bytes) × (hosts' : List Host) × (add_static_address mac ip hostname file ≡ ok file')
      × (parse_dhcp_hosts file' ≡ ok hosts')
      × All IsHost hosts'
      × ((k : Bytes)
          → host_of k hosts' ≡ (
              if join_colons pieces =b k
              then some
                  (record { mac_addr = join_colons pieces; ip_addr = ip; hostname = hostname })
              else host_of k hosts))
unfolding add_static_address
add_static_address_lem mac ip hostname file pieces hosts is_mac fits reads good =
    let new : Host = record { mac_addr = join_colons pieces; ip_addr = ip; hostname = hostname } in
    let left = others (join_colons pieces) hosts ++ new ∷ [] in
    let goods =
      sorted-IsHost left
        (All-append IsHost _ _ (others-IsHost (join_colons pieces) hosts good) (fits, tt)) in
    (
      render (sorted left),
      sorted left,
      rw (is_mac, reads) refl,
      parse_dhcp_hosts-render (sorted left) goods,
      goods,
      λ k.
          host_of-sorted k left
          ∙ host_of-append k (others (join_colons pieces) hosts) (new ∷ [])
          ∙ ap (λ o. or_else o (host_of k (new ∷ []))) (host_of-others k (join_colons pieces) hosts)
          ∙ replaced (join_colons pieces =b k) (host_of k hosts) new,
    )
