-- ===== src/Network/BondWritten.antt =====
-- The files of the default bond, when the marker says that they were written.
use smoothnas.Prelude.{
  ◌≡◌, ◌∙◌, sym, ap, subst, true, false, Option, some, List, if◌then◌else◌, arith,
}
use smoothnas.Prelude.Eq.{◌=?◌}
use smoothnas.Prelude.Maps.{find, find-put}
use smoothnas.Prelude.Text.{Text, text_eq, text_beq}
use smoothnas.Network.Dirs.{Dir}
use smoothnas.Network.Texts.{
  BondConfig, generate_bond_network, generate_bond_netdev, default_bond_members_network,
  veth_unmanaged_network,
}
use smoothnas.Network.Nics.{Host, member_mac, enumerate_physical_ethernet}
use smoothnas.Network.BondPolicy.{
  members_file, veth_file, network_file, netdev_file, Marker, Done, and_then, Policy,
  write_config_file, write_veth_and_members, write_bond_files, set_marker, write_for,
  write_default_bond_files, apply_default_bond_policy, default_bond_policy,
  remove_legacy_catch_all_dhcp,
}

abbrev pub IsWritten : BondConfig → Dir → Type 0
IsWritten bond d =
    (find netdev_file d ≡ some (generate_bond_netdev bond))
    × (find network_file d ≡ some (generate_bond_network bond))
    × (find veth_file d ≡ some veth_unmanaged_network)
    × (find members_file d ≡ some default_bond_members_network)

find-write :
    (h : Host) (f g content : Text) (d : Dir)
    → (write_config_file h f content d).ok ≡ true
    → find g (write_config_file h f content d).dir ≡ (if f =? g then some content else find g d)
unfolding write_config_file
find-write h f g content d o = ground (arith, find-put f g content d)

find-write_bond_files :
    (h : Host) (bond : BondConfig) (g : Text) (d : Dir)
    → (write_bond_files h bond d).ok ≡ true
    → find g (write_bond_files h bond d).dir ≡ (
        if members_file =? g
        then some default_bond_members_network
        else if veth_file =? g
        then some veth_unmanaged_network
        else if network_file =? g
        then some (generate_bond_network bond)
        else if netdev_file =? g
        then some (generate_bond_netdev bond)
        else find g d)
unfolding write_bond_files write_veth_and_members
find-write_bond_files h bond g d o =
    let a = write_config_file h netdev_file (generate_bond_netdev bond) d in
    let b = write_config_file h network_file (generate_bond_network bond) a.dir in
    let c = write_config_file h veth_file veth_unmanaged_network b.dir in
    ground (
      arith,
      find-write h netdev_file g (generate_bond_netdev bond) d,
      find-write h network_file g (generate_bond_network bond) a.dir,
      find-write h veth_file g veth_unmanaged_network b.dir,
      find-write h members_file g default_bond_members_network c.dir,
    )

write_bond_files-IsWritten :
    (h : Host) (bond : BondConfig) (d : Dir)
    → (write_bond_files h bond d).ok ≡ true
    → IsWritten bond (write_bond_files h bond d).dir
unfolding text_beq
write_bond_files-IsWritten h bond d o = (
  find-write_bond_files h bond netdev_file d o,
  find-write_bond_files h bond network_file d o,
  find-write_bond_files h bond veth_file d o,
  find-write_bond_files h bond members_file d o,
)

set_after_files :
    (m : Marker) (w : Done)
    → m.is_set ≡ false
    → (set_marker m w).marker.is_set ≡ true
    → (w.ok ≡ true) × ((set_marker m w).dir ≡ w.dir)
unfolding set_marker
set_after_files m w n s = ground arith

write_for-IsWritten :
    (h : Host) (m : Marker) (members : List Text) (d : Dir)
    → m.is_set ≡ false
    → (write_for h m (some members) d).marker.is_set ≡ true
    → IsWritten (default_bond_policy (member_mac h members)) (write_for h m (some members) d).dir
unfolding write_for
write_for-IsWritten h m members d n s =
    let bond = default_bond_policy (member_mac h members) in
    let legacy = remove_legacy_catch_all_dhcp h d in
    let all_written = and_then legacy (write_bond_files h bond) in
    let done = set_after_files m all_written n s in
    let last : (write_bond_files h bond legacy.dir).ok ≡ true = ground (arith, done.0) in
    let same : all_written.dir ≡ (write_bond_files h bond legacy.dir).dir =
      ground (arith, done.0) in
    subst (IsWritten bond) (sym (done.1 ∙ same)) (write_bond_files-IsWritten h bond legacy.dir last)

-- The first start on a box sets the marker only when all four files of the default bond are there,
-- with the contents for the NICs that were found.
pub marked-IsWritten :
    (h : Host) (m : Marker) (members : List Text) (d : Dir)
    → m.is_set ≡ false
    → enumerate_physical_ethernet h ≡ some members
    → (apply_default_bond_policy h m d).marker.is_set ≡ true
    → IsWritten (default_bond_policy (member_mac h members)) (apply_default_bond_policy h m d).dir
unfolding apply_default_bond_policy write_default_bond_files
marked-IsWritten h m members d n e s =
    let legacy = remove_legacy_catch_all_dhcp h d in
    let w = write_for h m (some members) legacy.dir in
    let same : write_for h m (enumerate_physical_ethernet h) legacy.dir ≡ w =
      ap (λ (o : Option (List Text)). write_for h m o legacy.dir) e in
    let marked : w.marker.is_set ≡ true =
      ground (arith, ap (λ (x : Policy). x.marker.is_set) same) in
    let dirs : (apply_default_bond_policy h m d).dir ≡ w.dir =
      ground (arith, ap (λ (x : Policy). x.dir) same) in
    subst (IsWritten (default_bond_policy (member_mac h members))) (sym dirs)
      (write_for-IsWritten h m members legacy.dir n marked)
