-- ===== src/Network/BondPolicy.antt =====
-- The default bond (ApplyDefaultBondPolicy, BreakBond and RecreateDefaultBond in
-- tierd/internal/network/policy.go) over the directory of systemd-networkd, as a map from file names.
use smoothnas.Prelude.{
  ℕ, Bool, true, false, not, ◌&&◌, ◌||◌, ◌==◌, Option, none, some, List, [], ◌∷◌, ◌++◌,
  if◌then◌else◌, leb, length,
}
use smoothnas.Prelude.Distinct.{all}
use smoothnas.Prelude.Maps.{find, put, erase}
use smoothnas.Prelude.Text.{Text, text_eq, codes}
use smoothnas.Network.Dirs.{Dir, has_prefix}
use smoothnas.Network.Texts.{
  BondConfig, dhcp_interface, generate_network_file, generate_bond_netdev, generate_bond_network,
  default_bond_members_network, veth_unmanaged_network, is_legacy_catch_all_dhcp,
}
use smoothnas.Network.Nics.{Host, enumerate_physical_ethernet, member_mac}

abbrev pub netdev_file : Text
netdev_file = codes "90-default-bond0.netdev"

abbrev pub network_file : Text
network_file = codes "90-default-bond0.network"

abbrev pub members_file : Text
members_file = codes "99-default-bond-members.network"

abbrev pub veth_file : Text
veth_file = codes "01-veth-unmanaged.network"

abbrev pub legacy_file : Text
legacy_file = codes "10-dhcp.network"

-- The config store's row of NetworkBootstrapCompleteKey, and whether the store answers.
pub record Marker : Type 0 where
  pub is_set : Bool
  pub readable : Bool
  pub writable : Bool

pub record Policy : Type 0 where
  pub ok : Bool
  pub marker : Marker
  pub dir : Dir

pub record Done : Type 0 where
  pub ok : Bool
  pub dir : Dir

abbrev pub and_then : Done → (Dir → Done) → Done
and_then d f = if d.ok then f d.dir else d

abbrev pub default_bond_policy : Text → BondConfig
default_bond_policy mac = record {
  interface = dhcp_interface (codes "bond0");
  bond_mode = codes "active-backup";
  mac_address = mac;
}

unfoldable pub write_config_file : Host → Text → Text → Dir → Done
write_config_file h name content d =
    if h.can_write name
    then record { ok = true; dir = put name content d }
    else record { ok = false; dir = d }

-- `RemoveConfigFiles`, up to the first file that cannot be removed.
unfoldable pub remove_config_files : Host → Text → Dir → Done
remove_config_files h prefix [] = record { ok = true; dir = [] }
remove_config_files h prefix ((k, v) ∷ d) =
    let rest = remove_config_files h prefix d in
    if not (has_prefix k prefix)
    then record rest { dir = (k, v) ∷ rest.dir }
    else if h.can_remove k
    then rest
    else record { ok = false; dir = (k, v) ∷ d }

unfoldable pub remove_legacy : Host → Option Text → Dir → Done
remove_legacy h none d = record { ok = true; dir = d }
remove_legacy h (some content) d =
    if not (is_legacy_catch_all_dhcp content)
    then record { ok = true; dir = d }
    else if h.can_remove legacy_file
    then record { ok = true; dir = erase legacy_file d }
    else record { ok = false; dir = d }

-- `RemoveLegacyCatchAllDHCP`.
unfoldable pub remove_legacy_catch_all_dhcp : Host → Dir → Done
remove_legacy_catch_all_dhcp h d = remove_legacy h (find legacy_file d) d

unfoldable pub write_veth_and_members : Host → Dir → Done
write_veth_and_members h d =
    and_then (write_config_file h veth_file veth_unmanaged_network d)
      (write_config_file h members_file default_bond_members_network)

unfoldable pub refresh_members : Host → Option Text → Dir → Done
refresh_members h none d = record { ok = true; dir = d }
refresh_members h (some content) d = write_veth_and_members h d

unfoldable pub write_bond_files : Host → BondConfig → Dir → Done
write_bond_files h bond d =
    and_then (write_config_file h netdev_file (generate_bond_netdev bond) d) (λ (e : Dir).
      and_then (write_config_file h network_file (generate_bond_network bond) e)
        (write_veth_and_members h))

-- `SetBoolConfig` of the marker, after the files.
unfoldable pub set_marker : Marker → Done → Policy
set_marker m d =
    if d.ok
    then record {
      ok = m.writable;
      marker = if m.writable then record m { is_set = true } else m;
      dir = d.dir;
    }
    else record { ok = false; marker = m; dir = d.dir }

unfoldable pub write_for : Host → Marker → Option (List Text) → Dir → Policy
write_for h m none d = record { ok = false; marker = m; dir = d }
write_for h m (some members) d = set_marker m (
    and_then (remove_legacy_catch_all_dhcp h d)
      (write_bond_files h (default_bond_policy (member_mac h members))))

-- `writeDefaultBondFiles`.
unfoldable pub write_default_bond_files : Host → Marker → Dir → Policy
write_default_bond_files h m d = write_for h m (enumerate_physical_ethernet h) d

unfoldable pub apply_default_bond_policy : Host → Marker → Dir → Policy
apply_default_bond_policy h m d =
    let legacy = remove_legacy_catch_all_dhcp h d in
    if not legacy.ok
    then record { ok = false; marker = m; dir = legacy.dir }
    else if not m.readable
    then record { ok = false; marker = m; dir = legacy.dir }
    else if m.is_set
    then (let fresh = refresh_members h (find members_file legacy.dir) legacy.dir in
        record { ok = fresh.ok; marker = m; dir = fresh.dir })
    else write_default_bond_files h m legacy.dir

abbrev is_letter : ℕ → Bool
is_letter c = (leb 65 c && leb c 90) || (leb 97 c && leb c 122)

abbrev is_name_char : ℕ → Bool
is_name_char c = is_letter c || (leb 48 c && leb c 57) || (c == b'.') || (c == b'_') || (c == b'-')

-- `^[a-zA-Z][a-zA-Z0-9._-]{0,15}$`.
unfoldable pub validate_interface_name : Text → Bool
validate_interface_name [] = false
validate_interface_name (c ∷ cs) = is_letter c && leb (length cs) 15 && all is_name_char cs

unfoldable pub validate_bond_name : Text → Bool
validate_bond_name name = has_prefix name (codes "bond") && validate_interface_name name

abbrev pub member_file : Text → Text
member_file m = codes "10-" ++ m ++ codes ".network"

unfoldable pub remove_each : Host → List Text → Dir → Done
remove_each h [] d = record { ok = true; dir = d }
remove_each h (p ∷ ps) d = and_then (remove_config_files h p d) (remove_each h ps)

unfoldable pub write_members : Host → List Text → Dir → Done
write_members h [] d = record { ok = true; dir = d }
write_members h (m ∷ ms) d =
    and_then (write_config_file h (member_file m) (generate_network_file (dhcp_interface m)) d)
      (write_members h ms)

unfoldable pub break_bond : Host → Text → List Text → Dir → Done
break_bond h bond members d =
    if not (all validate_interface_name members)
    then record { ok = false; dir = d }
    else if not (validate_bond_name bond)
    then record { ok = false; dir = d }
    else and_then
        (remove_each h
          ((codes "05-" ++ bond ++ codes ".")
            ∷ (codes "10-" ++ bond ++ codes ".")
            ∷ (codes "90-default-" ++ bond ++ codes ".")
            ∷ veth_file
            ∷ members_file
            ∷ [])
          d)
        (write_members h members)

-- The errors of the removals are dropped.
unfoldable pub remove_members : Host → List Text → Dir → Dir
remove_members h [] d = d
remove_members h (m ∷ ms) d =
    remove_members h ms (remove_config_files h (codes "10-" ++ m ++ codes ".") d).dir

unfoldable pub recreate_for : Host → Marker → Option (List Text) → Dir → Policy
recreate_for h m none d = record { ok = false; marker = m; dir = d }
recreate_for h m (some members) d = write_default_bond_files h m (remove_members h members d)

unfoldable pub recreate_default_bond : Host → Marker → Dir → Policy
recreate_default_bond h m d = recreate_for h m (enumerate_physical_ethernet h) d
