-- ===== src/Boots/Hosts/Lines.antt =====
-- boots.py: the hosts file reads back what it was written from.
use valve_infra.Base.{
  All-append, ℕ, Bool, true, false, ◌&&◌, not, ◌≡◌, refl, ap, ◌∙◌, some, List, [], ◌∷◌, ◌++◌, arith,
  ◌==◌, All,
}
use valve_infra.Base.Text.{codes}
use valve_infra.Base.Result.{ok}
use valve_infra.Message.Framing.{Bytes}
use valve_infra.Boots.Hosts.{
  added, is_skipped, with_hostname, Host, is_break, is_space, splitlines, lstrip, rstrip, strip,
  until_comma, match_host, behind, nonempty, parse_lines, parse_dhcp_hosts, line_of, render,
  unless_blank,
}

abbrev pub starts_well : Bytes → Bool
starts_well [] = false
starts_well (c ∷ s) = not (is_space c) && not (c == 35)

abbrev pub is_nonempty : Bytes → Bool
is_nonempty [] = false
is_nonempty (c ∷ s) = true

-- No end of a line, and no comma.
abbrev pub IsPlain : ℕ → Type 0
IsPlain c = (is_break c ≡ false) × ((c == 44) ≡ false)

-- A host that a line of the file can hold.
abbrev pub IsHost : Host → Type 0
IsHost h =
    (starts_well h.mac_addr ≡ true)
    × All IsPlain h.mac_addr
    × (is_nonempty h.ip_addr ≡ true)
    × All IsPlain h.ip_addr
    × (is_nonempty h.hostname ≡ true)
    × All (λ c. is_break c ≡ false) h.hostname
    × (rstrip h.hostname ≡ h.hostname)

splitlines_line :
    (l s : Bytes) → All (λ c. is_break c ≡ false) l → splitlines (l ++ 10 ∷ s) ≡ l ∷ splitlines s
unfolding splitlines
splitlines_line [] s h = refl
splitlines_line (c ∷ l) s (hc, hl) = rw (hc, splitlines_line l s hl)

until_comma_lem : (x s : Bytes) → All IsPlain x → until_comma (x ++ 44 ∷ s) ≡ some (x, s)
unfolding until_comma
until_comma_lem [] s h = refl
until_comma_lem (c ∷ x) s ((_, hc), hx) = rw (hc, until_comma_lem x s hx)

nonempty_lem : (x s : Bytes) → is_nonempty x ≡ true → nonempty (some (x, s)) ≡ some (x, s)
nonempty_lem [] s h = cc
nonempty_lem (c ∷ x) s h = refl

unless_blank_lem : (c : ℕ) (s : Bytes) → is_nonempty s ≡ true → unless_blank c s ≡ c ∷ s
unless_blank_lem c [] h = cc
unless_blank_lem c (d ∷ s) h = refl

nonempty-append : (x y : Bytes) → is_nonempty y ≡ true → is_nonempty (x ++ y) ≡ true
nonempty-append [] y h = h
nonempty-append (c ∷ x) y h = refl

rstrip-append : (x y : Bytes) → is_nonempty y ≡ true → rstrip y ≡ y → rstrip (x ++ y) ≡ x ++ y
unfolding rstrip
rstrip-append [] y h e = e
rstrip-append (c ∷ x) y h e =
    rw (rstrip-append x y h e) (unless_blank_lem c (x ++ y) (nonempty-append x y h))

lstrip_lem : (x y : Bytes) → starts_well x ≡ true → lstrip (x ++ y) ≡ x ++ y
unfolding lstrip
lstrip_lem [] y h = cc
lstrip_lem (c ∷ x) y h = ground arith

not_skipped : (x y : Bytes) → starts_well x ≡ true → is_skipped (x ++ y) ≡ false
not_skipped [] y h = cc
not_skipped (c ∷ x) y h = ground arith

starts-nonempty : (x : Bytes) → starts_well x ≡ true → is_nonempty x ≡ true
starts-nonempty [] h = cc
starts-nonempty (c ∷ x) h = refl

with_hostname_lem :
    (mac ip name : Bytes)
    → is_nonempty name ≡ true
    → with_hostname mac ip (some name)
      ≡ some (record { mac_addr = mac; ip_addr = ip; hostname = name })
with_hostname_lem mac ip [] h = cc
with_hostname_lem mac ip (c ∷ s) h = refl

no_break :
    (x y : Bytes)
    → All (λ c. is_break c ≡ false) x
    → All (λ c. is_break c ≡ false) y
    → All (λ c. is_break c ≡ false) (x ++ y)
no_break x y = All-append (λ c. is_break c ≡ false) x y

plain_no_break : (x : Bytes) → All IsPlain x → All (λ c. is_break c ≡ false) x
plain_no_break [] h = tt
plain_no_break (c ∷ x) ((hc, _), hx) = (hc, plain_no_break x hx)

module _ (h : Host) (good : IsHost h) where
  match_line : match_host (line_of h) ≡ some h
  unfolding match_host behind
  match_line =
      let (starts, mac, ip_some, ip, some_name, name, stripped) = good in
      rw
        (
          until_comma_lem h.mac_addr _ mac,
          nonempty_lem h.mac_addr (h.ip_addr ++ 44 ∷ (codes "set:" ++ h.hostname))
              (starts-nonempty h.mac_addr starts),
          until_comma_lem h.ip_addr (codes "set:" ++ h.hostname) ip,
          nonempty_lem h.ip_addr (codes "set:" ++ h.hostname) ip_some,
        )
        (with_hostname_lem h.mac_addr h.ip_addr h.hostname some_name)

  strip_line : strip (line_of h) ≡ line_of h
  unfolding strip
  strip_line =
      let (starts, mac, ip_some, ip, some_name, name, stripped) = good in
      let tail = rstrip-append (44 ∷ codes "set:") h.hostname some_name stripped in
      rw (lstrip_lem h.mac_addr (44 ∷ (h.ip_addr ++ 44 ∷ (codes "set:" ++ h.hostname))) starts)
        (rstrip-append h.mac_addr _ refl (rstrip-append (44 ∷ h.ip_addr) _ refl tail))

  line_no_break : All (λ c. is_break c ≡ false) (line_of h)
  line_no_break =
      let (starts, mac, ip_some, ip, some_name, name, stripped) = good in
      no_break h.mac_addr _ (plain_no_break h.mac_addr mac) (
        refl,
        no_break h.ip_addr _ (plain_no_break h.ip_addr ip)
            (refl, (refl, (refl, (refl, (refl, name))))),
      )

parse_lines_step :
    (h : Host) (line : Bytes) (lines : List Bytes)
    → strip line ≡ line
    → is_skipped line ≡ false
    → match_host line ≡ some h
    → parse_lines (line ∷ lines) ≡ added (some h) (parse_lines lines)
unfolding parse_lines
parse_lines_step h line lines bare kept matches = rw (bare, kept, matches) refl

-- Writing hosts and reading the file gives the hosts.
pub parse_dhcp_hosts-render :
    (hosts : List Host) → All IsHost hosts → parse_dhcp_hosts (render hosts) ≡ ok hosts
unfolding render parse_dhcp_hosts parse_lines
parse_dhcp_hosts-render [] h = unfold parse_dhcp_hosts in refl
parse_dhcp_hosts-render (h ∷ hosts) (good, goods) =
    let line = splitlines_line (line_of h) (render hosts) (line_no_break h good) in
    let step =
      parse_lines_step h (line_of h) (splitlines (render hosts)) (strip_line h good)
        (not_skipped h.mac_addr _ good.0) (match_line h good) in
    ap parse_lines line ∙ step ∙ ap (added (some h)) (parse_dhcp_hosts-render hosts goods)
