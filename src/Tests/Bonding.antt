-- ===== src/Tests/Bonding.antt =====
-- A box with one NIC, whose default bond is written at the first start and then broken.
use smoothnas.Prelude.{◌≡◌, refl, true, false, none, some, [], ◌∷◌}
use smoothnas.Prelude.Distinct.{among}
use smoothnas.Prelude.Eq.{◌=?◌}
use smoothnas.Prelude.Maps.{find}
use smoothnas.Prelude.Text.{Text, text_eq, text_beq, codes}
use smoothnas.Prelude.Reading.{trim_space, trim_left, is_space}
use smoothnas.Network.Dirs.{Dir, has_prefix}
use smoothnas.Network.Nics.{
  Host, enumerate_physical_ethernet, is_physical_ethernet, is_bond_ineligible_interface_name,
  is_runtime_interface_name, member_mac,
}
use smoothnas.Network.BondPolicy.{
  members_file, legacy_file, member_file, Marker, break_bond, remove_each, remove_config_files,
  write_members, write_config_file, validate_bond_name, validate_interface_name,
  apply_default_bond_policy, write_default_bond_files, write_for, set_marker,
  remove_legacy_catch_all_dhcp, remove_legacy, write_bond_files, write_veth_and_members,
  default_bond_policy,
}
use smoothnas.Network.BondKept.{restarts, dhcp_text, broken_bond_stays}
use smoothnas.Network.BondWritten.{IsWritten, marked-IsWritten}

abbrev nic : Text
nic = codes "eth0"

abbrev one_nic : Host
one_nic = record {
  can_write = λ (f : Text). true;
  can_remove = λ (f : Text). true;
  entries = some (nic ∷ codes "lo" ∷ []);
  is_present = λ (n f : Text). f =? codes "device";
  read = λ (n f : Text). some (codes "1");
}

abbrev marked_before : Marker
marked_before = record { is_set = true; readable = true; writable = true }

abbrev fresh : Marker
fresh = record { is_set = false; readable = true; writable = true }

abbrev bonded : Dir
bonded = (members_file, codes "x") ∷ []

bonded_breaks : (break_bond one_nic (codes "bond0") (nic ∷ []) bonded).ok ≡ true
unfolding break_bond remove_each remove_config_files write_members write_config_file
    validate_bond_name validate_interface_name has_prefix
bonded_breaks = refl

nic_is_member : among nic (nic ∷ []) ≡ true
unfolding text_beq
nic_is_member = refl

nic_file_not_legacy : (legacy_file =? member_file nic) ≡ false
unfolding text_beq
nic_file_not_legacy = refl

broken_bond_stays_example :
    (find members_file (
        restarts
          (one_nic ∷ one_nic ∷ [])
          marked_before
          (break_bond one_nic (codes "bond0") (nic ∷ []) bonded).dir)
      ≡ none)
    × (find (member_file nic) (
          restarts
            (one_nic ∷ one_nic ∷ [])
            marked_before
            (break_bond one_nic (codes "bond0") (nic ∷ []) bonded).dir)
        ≡ some (dhcp_text nic))
broken_bond_stays_example =
    broken_bond_stays one_nic (codes "bond0") (nic ∷ []) bonded (one_nic ∷ one_nic ∷ [])
      marked_before nic bonded_breaks refl nic_is_member nic_file_not_legacy

nic_found : enumerate_physical_ethernet one_nic ≡ some (nic ∷ [])
unfolding enumerate_physical_ethernet is_physical_ethernet is_bond_ineligible_interface_name
    is_runtime_interface_name has_prefix text_beq trim_space trim_left is_space
nic_found = refl

first_start_marks : (apply_default_bond_policy one_nic fresh []).marker.is_set ≡ true
unfolding apply_default_bond_policy write_default_bond_files write_for set_marker
    remove_legacy_catch_all_dhcp remove_legacy write_bond_files write_veth_and_members
    write_config_file find enumerate_physical_ethernet
first_start_marks = refl

marked-IsWritten_example :
    IsWritten
      (default_bond_policy (member_mac one_nic (nic ∷ [])))
      (apply_default_bond_policy one_nic fresh []).dir
marked-IsWritten_example =
    marked-IsWritten one_nic fresh (nic ∷ []) [] refl nic_found first_start_marks
