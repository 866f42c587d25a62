-- ===== src/Instances/Inserting.antt =====
-- Inserting the rows of new instances when no row has their keys.
use smoothnas.Prelude.{
  ℕ, zero, suc, ◌+◌, ◌≡◌, ap, refl, true, false, some, List, [], ◌∷◌, ◌++◌, leb, arith, any-append,
  inl, inr, Bool-cases,
}
use smoothnas.Prelude.Distinct.{among, distinct}
use smoothnas.Prelude.Eq.{nat_eq, ◌=?◌}
use smoothnas.Prelude.Text.{Text, text_eq, text_beq_iff}
use smoothnas.Instances.Rows.{
  installed, InstanceRow, has_unit, is_unit, insert_instance, insert_numbers, insert_instances,
}
use smoothnas.Instances.Scale.{count_up}
use smoothnas.Instances.Keys.{keys, numbers_of, insert_numbers-keys}
use smoothnas.Instances.Full.{has_key, has_key-append, has_key-numbers_of}

pub has_unit-keys :
    (s : Text) (n : ℕ) (rs : List InstanceRow) → has_unit s n rs ≡ has_key s n (keys rs)
has_unit-keys s n [] = refl
has_unit-keys s n (r ∷ rs) = ground (arith, has_unit-keys s n rs)

insert_numbers-succeeds :
    (s : Text) (first n : ℕ) (rs : List InstanceRow)
    → ((m : ℕ) → leb first m ≡ true → has_unit s m rs ≡ false)
    → (qs : List InstanceRow) × (insert_numbers s (count_up first n) rs ≡ some qs)
unfolding insert_numbers count_up insert_instance
insert_numbers-succeeds s first zero rs fresh = (rs, refl)
insert_numbers-succeeds s first (suc n) rs fresh =
    let row : InstanceRow = record {
      service = s;
      instance_number = first;
      container_id = [];
      state = installed;
    } in
    let next = rs ++ (row ∷ []) in
    let inserted : insert_instance s first rs ≡ some next = ground (arith, fresh first) in
    let rest =
      insert_numbers-succeeds s (first + 1) n next
        (λ m h. ground (arith, fresh m, any-append (is_unit s m) rs (row ∷ []))) in
    (rest.0, rw inserted rest.1)

-- The rows of one service are none of another.
still_fresh :
    (s t : Text) (m : ℕ) (ss : List Text) (ns : List ℕ) (rs qs : List InstanceRow)
    → distinct (s ∷ ss) ≡ true
    → among t ss ≡ true
    → insert_numbers s ns rs ≡ some qs
    → has_unit t m rs ≡ false
    → has_unit t m qs ≡ false
still_fresh s t m ss ns rs qs d a e f =
    let apart : (s =? t) ≡ false = elim (Bool-cases (s =? t)) [
      | inl i ↦
          let same : s ≡ t = ground (arith, text_beq_iff s t) in
          absurd (ground (arith, ap (λ (x : Text). among x ss) same))
      | inr i ↦ i
    ] in
    ground (
      arith,
      apart,
      has_unit-keys t m qs,
      has_unit-keys t m rs,
      ap (has_key t m) (insert_numbers-keys s ns rs qs e),
      has_key-append t m (keys rs) (numbers_of s ns),
      has_key-numbers_of t m s ns,
    )

pub insert_instances-succeeds :
    (ss : List Text) (first n : ℕ) (rs : List InstanceRow)
    → distinct ss ≡ true
    → ((s : Text) (m : ℕ) → among s ss ≡ true → leb first m ≡ true → has_unit s m rs ≡ false)
    → (qs : List InstanceRow) × (insert_instances ss (count_up first n) rs ≡ some qs)
unfolding insert_instances
insert_instances-succeeds [] first n rs d fresh = (rs, refl)
insert_instances-succeeds (s ∷ ss) first n rs d fresh =
    let one =
      insert_numbers-succeeds s first n rs
        (λ m h. fresh s m (ground (arith, text_beq_iff s s)) h) in
    let rest = insert_instances-succeeds ss first n one.0 (ground arith) (λ t m a h.
      still_fresh s t m ss (count_up first n) rs one.0 d a one.1 (fresh t m (ground arith) h)) in
    (rest.0, rw one.1 rest.1)
