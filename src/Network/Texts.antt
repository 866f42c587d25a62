-- ===== src/Network/Texts.antt =====
-- The files of systemd-networkd that the program writes and reads (GenerateNetworkFile and
-- isLegacyCatchAllDHCP in tierd/internal/network/interface.go, bond.go and policy.go).
use smoothnas.Prelude.{
  ℕ, Bool, true, false, not, ◌&&◌, ◌||◌, ◌==◌, List, [], ◌∷◌, ◌++◌, if◌then◌else◌, ltb,
}
use smoothnas.Prelude.Eq.{◌=?◌}
use smoothnas.Prelude.Text.{Text, text_eq, codes}
use smoothnas.Prelude.Reading.{trim_space}
use smoothnas.Monitor.Format.{format_int}
use smoothnas.Network.Dirs.{has_prefix, has_suffix}

pub record InterfaceConfig : Type 0 where
  pub name : Text
  pub ipv4_addrs : List Text
  pub ipv6_addrs : List Text
  pub gateway4 : Text
  pub gateway6 : Text
  pub dhcp4 : Bool
  pub dhcp6 : Bool
  pub slaac : Bool
  pub mtu : ℕ
  pub dns : List Text

abbrev pub newline : Text
newline = 10 ∷ []

abbrev pub line : Text → Text
line s = s ++ newline

-- `fmt.Fprintf(&b, "<key>=%s\n", value)`.
abbrev pub setting : Text → Text → Text
setting key value = key ++ (codes "=" ++ line value)

unfoldable pub settings : Text → List Text → Text
settings key [] = []
settings key (v ∷ vs) = setting key v ++ settings key vs

abbrev pub optional : Text → Text → Text
optional key value = if value =? [] then [] else setting key value

unfoldable pub dhcp_line : Bool → Bool → Text
dhcp_line true true = line (codes "DHCP=yes")
dhcp_line true false = line (codes "DHCP=ipv4")
dhcp_line false true = line (codes "DHCP=ipv6")
dhcp_line false false = []

abbrev pub generated_line : Text
generated_line = line (codes "# Auto-generated by tierd. Do not edit.")

-- The MTU is not negative.
unfoldable pub generate_network_file : InterfaceConfig → Text
generate_network_file c =
    generated_line
    ++ line (codes "[Match]")
    ++ setting (codes "Name") c.name
    ++ newline
    ++ line (codes "[Network]")
    ++ dhcp_line c.dhcp4 c.dhcp6
    ++ settings (codes "Address") c.ipv4_addrs
    ++ optional (codes "Gateway") c.gateway4
    ++ settings (codes "Address") c.ipv6_addrs
    ++ optional (codes "Gateway") c.gateway6
    ++ setting (codes "IPv6AcceptRA") (if c.slaac then codes "true" else codes "false")
    ++ settings (codes "DNS") c.dns
    ++ newline
    ++ line (codes "[Link]")
    ++ (if ltb 0 c.mtu then setting (codes "MTUBytes") (format_int c.mtu) else [])
    ++ (if c.dhcp4
        then newline ++ line (codes "[DHCPv4]") ++ line (codes "ClientIdentifier=mac")
        else [])

-- `InterfaceConfig{Name: m, DHCP4: true}`.
abbrev pub dhcp_interface : Text → InterfaceConfig
dhcp_interface m = record {
  name = m;
  ipv4_addrs = [];
  ipv6_addrs = [];
  gateway4 = [];
  gateway6 = [];
  dhcp4 = true;
  dhcp6 = false;
  slaac = false;
  mtu = 0;
  dns = [];
}

-- The fields of `BondConfig` that its files use; the addresses are those of its interface.
pub record BondConfig : Type 0 where
  pub interface : InterfaceConfig
  pub bond_mode : Text
  pub mac_address : Text

unfoldable pub generate_bond_netdev : BondConfig → Text
generate_bond_netdev b =
    generated_line
    ++ line (codes "[NetDev]")
    ++ setting (codes "Name") b.interface.name
    ++ line (codes "Kind=bond")
    ++ optional (codes "MACAddress") b.mac_address
    ++ newline
    ++ line (codes "[Bond]")
    ++ setting (codes "Mode") b.bond_mode
    ++ (if b.bond_mode =? codes "802.3ad"
        then line (codes "TransmitHashPolicy=layer3+4")
          ++ line (codes "MIIMonitorSec=100ms")
          ++ line (codes "LACPTransmitRate=fast")
        else line (codes "MIIMonitorSec=100ms"))

unfoldable pub generate_bond_network : BondConfig → Text
generate_bond_network b = generate_network_file b.interface

-- The constants of `GenerateDefaultBondMembersNetwork`, their comment lines included.
abbrev pub default_bond_members_network : Text
default_bond_members_network =
    line (codes "# Auto-generated by tierd default-bond policy. Do not edit.")
    ++ line (codes "# Catches every physical Ethernet NIC not explicitly")
    ++ line (codes "# configured at a lower file-prefix number, so newly")
    ++ line (codes "# plugged-in NICs join the default bond automatically.")
    ++ line (codes "[Match]")
    ++ line (codes "Type=ether")
    ++ line (codes "Kind=!bond !bridge !veth !tun !tap !dummy !wireguard !vxlan")
    ++ line (
        codes
          "Name=!lo !bond* !br-* !br0 !virbr* !veth* !vnet* !docker* !tap* !tun* !wg* !ppp* !gow*")
    ++ newline
    ++ line (codes "[Network]")
    ++ setting (codes "Bond") (codes "bond0")

abbrev pub veth_unmanaged_network : Text
veth_unmanaged_network =
    line (codes "# Auto-generated by tierd default-bond policy. Do not edit.")
    ++ line (codes "# Keeps transient LXC/container veth interfaces out of bond0.")
    ++ line (codes "[Match]")
    ++ line (codes "Name=veth*")
    ++ newline
    ++ line (codes "[Link]")
    ++ line (codes "Unmanaged=yes")

-- The text up to the first `c` and what follows it, and whether there is one.
pub record CutText : Type 0 where
  pub before : Text
  pub after : Text
  pub found : Bool

-- `strings.Cut`.
unfoldable pub cut_at : ℕ → Text → CutText
cut_at c [] = record { before = []; after = []; found = false }
cut_at c (x ∷ xs) =
    let rest = cut_at c xs in
    if x == c
    then record { before = []; after = xs; found = true }
    else record rest { before = x ∷ rest.before }

-- `strings.Split(s, "\n")`.
unfoldable pub lines_from : Text → Text × List Text
lines_from [] = ([], [])
lines_from (c ∷ cs) =
    let (part, parts) = lines_from cs in if c == 10 then ([], part ∷ parts) else (c ∷ part, parts)

unfoldable pub split_lines : Text → List Text
split_lines s = let (part, parts) = lines_from s in part ∷ parts

-- The flags of `isLegacyCatchAllDHCP`.
pub record Scan : Type 0 where
  pub in_match : Bool
  pub in_network : Bool
  pub type_ether : Bool
  pub has_selector : Bool
  pub network_dhcp : Bool

abbrev is_section : Text → Bool
is_section l = has_prefix l (codes "[") && has_suffix l (codes "]")

unfoldable pub scan_match : Text → Scan → Scan
scan_match l s =
    let parts = cut_at b'=' l in
    if not parts.found
    then record s { has_selector = true }
    else if (trim_space parts.before =? codes "Type") && (trim_space parts.after =? codes "ether")
    then record s { type_ether = true }
    else record s { has_selector = true }

-- A line that is no header of the two sections. One without `=` in `[Match]` ends the round, and there
-- it is not in `[Network]`.
unfoldable pub scan_body : Text → Scan → Scan
scan_body l s =
    let left = if is_section l then record s { in_match = false; in_network = false } else s in
    let matched = if left.in_match then scan_match l left else left in
    if matched.in_network && (l =? codes "DHCP=yes")
    then record matched { network_dhcp = true }
    else matched

unfoldable pub scan_line : Text → Scan → Scan
scan_line l s =
    if (l =? []) || has_prefix l (codes "#")
    then s
    else if l =? codes "[Match]"
    then record s { in_match = true; in_network = false }
    else if l =? codes "[Network]"
    then record s { in_match = false; in_network = true }
    else scan_body l s

unfoldable pub scan_lines : List Text → Scan → Scan
scan_lines [] s = s
scan_lines (l ∷ ls) s = scan_lines ls (scan_line (trim_space l) s)

unfoldable pub is_legacy_catch_all_dhcp : Text → Bool
is_legacy_catch_all_dhcp data_text =
    let s = scan_lines (split_lines data_text) (record {
      in_match = false;
      in_network = false;
      type_ether = false;
      has_selector = false;
      network_dhcp = false;
    }) in
    s.type_ether && not s.has_selector && s.network_dhcp
