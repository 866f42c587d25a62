-- ===== src/Network/BondKept.antt =====
-- What restarts of the daemon do to a bond that was broken, and to a fresh box.
use mathlib.Core.List.{append_cancel_left, append_cancel_right}
use smoothnas.Prelude.{
  ◌≡◌, ◌∙◌, subst, refl, sym, ap, true, false, Option, none, some, List, [], ◌∷◌, ◌++◌,
  if◌then◌else◌, any, arith, Bool-cases, inl, inr,
}
use smoothnas.Prelude.Distinct.{among}
use smoothnas.Prelude.Eq.{◌=?◌}
use smoothnas.Prelude.Maps.{find, put, find-put, find-erase}
use smoothnas.Prelude.Text.{Text, text_eq, text_beq, text_beq_iff, codes}
use smoothnas.Network.Dirs.{Dir, has_prefix}
use smoothnas.Network.Texts.{dhcp_interface, generate_network_file}
use smoothnas.Network.Nics.{Host}
use smoothnas.Network.BondPolicy.{
  members_file, veth_file, legacy_file, Marker, write_config_file, remove_config_files,
  remove_legacy, remove_legacy_catch_all_dhcp, refresh_members, apply_default_bond_policy,
  member_file, remove_each, write_members, break_bond,
}

find-remove_config_files :
    (h : Host) (prefix k : Text) (d : Dir)
    → (remove_config_files h prefix d).ok ≡ true
    → find k (remove_config_files h prefix d).dir ≡ (if has_prefix k prefix then none else find k d)
unfolding remove_config_files find
find-remove_config_files h prefix k [] o = ground arith
find-remove_config_files h prefix k ((j, v) ∷ d) o = elim (Bool-cases (j =? k)) [
  | inl i ↦
      let same : j ≡ k = ground (arith, text_beq_iff j k) in
      ground
        (arith, ap (λ (x : Text). has_prefix x prefix) same, find-remove_config_files h prefix k d)
  | inr i ↦ ground (arith, find-remove_config_files h prefix k d)
]

find-remove_legacy :
    (h : Host) (o : Option Text) (f : Text) (d : Dir)
    → (legacy_file =? f) ≡ false
    → find f (remove_legacy h o d).dir ≡ find f d
unfolding remove_legacy
find-remove_legacy h none f d n = refl
find-remove_legacy h (some c) f d n = ground (arith, find-erase legacy_file f d)

refresh_members-none :
    (h : Host) (o : Option Text) (d : Dir) → o ≡ none → (refresh_members h o d).dir ≡ d
unfolding refresh_members
refresh_members-none h none d e = refl
refresh_members-none h (some c) d e = absurd (ground arith)

members_not_legacy : (legacy_file =? members_file) ≡ false
unfolding text_beq
members_not_legacy = refl

apply_keeps :
    (h : Host) (m : Marker) (d : Dir) (f : Text)
    → m.is_set ≡ true
    → find members_file d ≡ none
    → (legacy_file =? f) ≡ false
    → find f (apply_default_bond_policy h m d).dir ≡ find f d
unfolding apply_default_bond_policy remove_legacy_catch_all_dhcp
apply_keeps h m d f s n l =
    let legacy = remove_legacy h (find legacy_file d) d in
    ground (
      arith,
      find-remove_legacy h (find legacy_file d) f d l,
      refresh_members-none h (find members_file legacy.dir) legacy.dir
          (find-remove_legacy h (find legacy_file d) members_file d members_not_legacy ∙ n),
    )

-- The daemon starts again, on a host in each of these states.
unfoldable pub restarts : List Host → Marker → Dir → Dir
restarts [] m d = d
restarts (h ∷ hs) m d = restarts hs m (apply_default_bond_policy h m d).dir

restarts_keep :
    (hs : List Host) (m : Marker) (d : Dir) (f : Text)
    → m.is_set ≡ true
    → find members_file d ≡ none
    → (legacy_file =? f) ≡ false
    → find f (restarts hs m d) ≡ find f d
unfolding restarts
restarts_keep [] m d f s n l = refl
restarts_keep (h ∷ hs) m d f s n l =
    restarts_keep hs m (apply_default_bond_policy h m d).dir f s
      (apply_keeps h m d members_file s n members_not_legacy ∙ n) l
    ∙ apply_keeps h m d f s n l

-- A file of a member is not the one that catches all.
member_not_members : (m : Text) → (member_file m =? members_file) ≡ false
unfolding text_beq
member_not_members m = refl

member_file_same : (m n : Text) → member_file m ≡ member_file n → m ≡ n
member_file_same m n e =
    append_cancel_left (codes "10-") m n
      (append_cancel_right (codes "10-" ++ m) (codes "10-" ++ n) (codes ".network") e)

write_members-other :
    (h : Host) (ms : List Text) (d : Dir)
    → find members_file (write_members h ms d).dir ≡ find members_file d
unfolding write_members write_config_file
write_members-other h [] d = refl
write_members-other h (m ∷ ms) d =
    let text = generate_network_file (dhcp_interface m) in
    ground (
      arith,
      write_members-other h ms (put (member_file m) text d),
      find-put (member_file m) members_file text d,
      member_not_members m,
    )

abbrev pub dhcp_text : Text → Text
dhcp_text m = generate_network_file (dhcp_interface m)

write_members-first :
    (h : Host) (ms : List Text) (d : Dir) (m : Text)
    → ((write_members h ms (put (member_file m) (dhcp_text m) d)).ok ≡ true
        → find (member_file m) (write_members h ms (put (member_file m) (dhcp_text m) d)).dir ≡ (
            if among m ms
            then some (dhcp_text m)
            else find (member_file m) (put (member_file m) (dhcp_text m) d)))
    → (write_members h (m ∷ ms) d).ok ≡ true
    → find (member_file m) (write_members h (m ∷ ms) d).dir ≡ some (dhcp_text m)
unfolding write_members write_config_file
write_members-first h ms d m later o = ground (
  arith,
  later,
  find-put (member_file m) (member_file m) (dhcp_text m) d,
  text_beq_iff (member_file m) (member_file m),
)

write_members-member :
    (h : Host) (ms : List Text) (d : Dir) (m : Text)
    → (write_members h ms d).ok ≡ true
    → find (member_file m) (write_members h ms d).dir
      ≡ (if among m ms then some (dhcp_text m) else find (member_file m) d)
unfolding write_members write_config_file
write_members-member h [] d m o = refl
write_members-member h (x ∷ ms) d m o = elim (Bool-cases (x =? m)) [
  | inl i ↦
      let same : x ≡ m = ground (arith, text_beq_iff x m) in
      ground (
        arith,
        i,
        subst
            (λ (y : Text).
              (write_members h (y ∷ ms) d).ok ≡ true
              → find (member_file m) (write_members h (y ∷ ms) d).dir ≡ some (dhcp_text m))
            (sym same)
            (λ q.
              write_members-first h ms d m
                (write_members-member h ms (put (member_file m) (dhcp_text m) d) m) q)
            o,
      )
  | inr i ↦
      let d' = put (member_file x) (dhcp_text x) d in
      let other : (member_file x =? member_file m) ≡ false = ground (
        arith,
        text_beq_iff (member_file x) (member_file m),
        text_beq_iff x m,
        member_file_same x m,
      ) in
      ground (
        arith,
        write_members-member h ms d' m,
        find-put (member_file x) (member_file m) (dhcp_text x) d,
      )
]

find-remove_each :
    (h : Host) (ps : List Text) (k : Text) (d : Dir)
    → (remove_each h ps d).ok ≡ true
    → find k (remove_each h ps d).dir ≡ (if any (has_prefix k) ps then none else find k d)
unfolding remove_each
find-remove_each h [] k d o = refl
find-remove_each h (p ∷ ps) k d o = ground (
  arith,
  find-remove_each h ps k (remove_config_files h p d).dir,
  find-remove_config_files h p k d,
)

members_prefix : has_prefix members_file members_file ≡ true
unfolding has_prefix
members_prefix = refl

break_bond-members :
    (h : Host) (bond : Text) (ms : List Text) (d : Dir)
    → (break_bond h bond ms d).ok ≡ true
    → find members_file (break_bond h bond ms d).dir ≡ none
unfolding break_bond
break_bond-members h bond ms d o =
    let ps =
      (codes "05-" ++ bond ++ codes ".")
      ∷ (codes "10-" ++ bond ++ codes ".")
      ∷ (codes "90-default-" ++ bond ++ codes ".")
      ∷ veth_file
      ∷ members_file
      ∷ [] in
    let r = remove_each h ps d in
    ground
      (arith, members_prefix, find-remove_each h ps members_file d, write_members-other h ms r.dir)

break_bond-member :
    (h : Host) (bond : Text) (ms : List Text) (d : Dir) (m : Text)
    → (break_bond h bond ms d).ok ≡ true
    → among m ms ≡ true
    → find (member_file m) (break_bond h bond ms d).dir ≡ some (dhcp_text m)
unfolding break_bond
break_bond-member h bond ms d m o a =
    let ps =
      (codes "05-" ++ bond ++ codes ".")
      ∷ (codes "10-" ++ bond ++ codes ".")
      ∷ (codes "90-default-" ++ bond ++ codes ".")
      ∷ veth_file
      ∷ members_file
      ∷ [] in
    let r = remove_each h ps d in ground (arith, write_members-member h ms r.dir m)

-- A bond that was broken stays broken: however often the daemon starts again, and whatever the host
-- answers, the file that catches all NICs is not there and each member has its own DHCP file. The
-- marker is set, and a member's file does not have the name of the installer's DHCP file.
pub broken_bond_stays :
    (h : Host) (bond : Text) (members : List Text) (d : Dir) (hs : List Host) (marker : Marker)
    (m : Text)
    → (break_bond h bond members d).ok ≡ true
    → marker.is_set ≡ true
    → among m members ≡ true
    → (legacy_file =? member_file m) ≡ false
    → (find members_file (restarts hs marker (break_bond h bond members d).dir) ≡ none)
      × (find (member_file m) (restarts hs marker (break_bond h bond members d).dir)
          ≡ some (dhcp_text m))
broken_bond_stays h bond members d hs marker m o s a l =
    let broken = (break_bond h bond members d).dir in
    let gone = break_bond-members h bond members d o in
    (
      restarts_keep hs marker broken members_file s gone members_not_legacy ∙ gone,
      restarts_keep hs marker broken (member_file m) s gone l
          ∙ break_bond-member h bond members d m o a,
    )
