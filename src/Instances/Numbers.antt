-- ===== src/Instances/Numbers.antt =====
-- The numbers of the instances that come or go.
use smoothnas.Prelude.{
  ℕ, zero, suc, ◌+◌, ◌-◌, ◌≤◌, ◌≡◌, ==_iff, refl, Bool, true, ◌&&◌, some, List, [], ◌∷◌, ◌++◌, ltb,
  leb, arith, Option-cases, inl, inr, Bool-cases,
}
use smoothnas.Prelude.Distinct.{among, all}
use smoothnas.Prelude.Eq.{nat_eq}
use smoothnas.Prelude.Text.{text_eq}
use smoothnas.Instances.Rows.{PathRow, VolumeRow, Plugin}
use smoothnas.Instances.Paths.{
  fan_out, find_template, volume_paths, compute_paths, compute_new_instance_paths,
  swap_instance_segment,
}
use smoothnas.Instances.Scale.{count_up, count_down}

pub among-count_up : (x first n : ℕ) → among x (count_up first n) ≡ leb first x && ltb x (first + n)
unfolding count_up
among-count_up x first zero = ground arith
among-count_up x first (suc n) = ground (arith, among-count_up x (first + 1) n, ==_iff first x)

pub among-count_down :
    (x first n : ℕ) → n ≤ first → among x (count_down first n) ≡ leb x first && ltb first (x + n)
unfolding count_down
among-count_down x first zero h = ground arith
among-count_down x first (suc n) h =
    ground (arith, among-count_down x (first - 1) n, ==_iff first x)

inside_up :
    (first n later m : ℕ)
    → first ≤ later
    → later + m ≤ first + n
    → all (λ (k : ℕ). among k (count_up first n)) (count_up later m) ≡ true
unfolding count_up
inside_up first n later zero h k = refl
inside_up first n later (suc m) h k =
    ground (arith, among-count_up later first n, inside_up first n (later + 1) m)

pub all-count_up :
    (first n : ℕ) → all (λ (k : ℕ). among k (count_up first n)) (count_up first n) ≡ true
all-count_up first n = inside_up first n first n (omega arith) (omega arith)

abbrev pub are_among : List ℕ → List PathRow → Bool
are_among added ps = all (λ (r : PathRow). among r.instance_number added) ps

are_among-append :
    (added : List ℕ) (a b : List PathRow)
    → are_among added (a ++ b) ≡ are_among added a && are_among added b
are_among-append added [] b = refl
are_among-append added (r ∷ a) b = ground (arith, are_among-append added a b)

fan_out-among :
    (added : List ℕ) (v : VolumeRow) (t : PathRow) (ns : List ℕ) (ps : List PathRow)
    → all (λ (k : ℕ). among k added) ns ≡ true
    → fan_out v t ns ≡ some ps
    → are_among added ps ≡ true
unfolding fan_out
fan_out-among added v t [] ps h e = let n : ps ≡ [] = ground arith in rw n refl
fan_out-among added v t (n ∷ ns) ps h e =
    elim (Option-cases (swap_instance_segment t.host_path t.instance_number n)) [
      | inl i ↦ absurd (ground (arith, rw i at e))
      | inr i ↦ elim (Option-cases (fan_out v t ns)) [
        | inl j ↦ absurd (ground (arith, rw (i.1, j) at e))
        | inr j ↦
            let d = rw (i.1, j.1) at e in
            let same : ps
                ≡ (record {
                  service = v.service;
                  volume = v.name;
                  instance_number = n;
                  host_path = i.0;
                })
                  ∷ j.0 =
              ground (arith, d) in
            rw same (ground (arith, fan_out-among added v t ns j.0))
      ]
    ]

volume_paths-among :
    (added : List ℕ) (ps : List PathRow) (v : VolumeRow) (qs : List PathRow)
    → all (λ (k : ℕ). among k added) added ≡ true
    → volume_paths added ps v ≡ some qs
    → are_among added qs ≡ true
unfolding volume_paths
volume_paths-among added ps v qs h e = elim (Option-cases (find_template v ps)) [
  | inl i ↦ absurd (ground (arith, rw i at e))
  | inr i ↦ fan_out-among added v i.0 added qs h (rw i.1 at e)
]

compute_paths-among :
    (added : List ℕ) (ps : List PathRow) (vs : List VolumeRow) (qs : List PathRow)
    → all (λ (k : ℕ). among k added) added ≡ true
    → compute_paths added ps vs ≡ some qs
    → are_among added qs ≡ true
unfolding compute_paths
compute_paths-among added ps [] qs h e = let n : qs ≡ [] = ground arith in rw n refl
compute_paths-among added ps (v ∷ vs) qs h e = elim (Bool-cases v.per_instance) [
  | inr b ↦ compute_paths-among added ps vs qs h (ground (arith, b))
  | inl b ↦ elim (Option-cases (volume_paths added ps v)) [
    | inl i ↦ absurd (ground (arith, b, i))
    | inr i ↦ elim (Option-cases (compute_paths added ps vs)) [
      | inl j ↦ absurd (ground (arith, b, i.1, j))
      | inr j ↦
          let same : qs ≡ i.0 ++ j.0 = ground (arith, b, i.1, j.1) in
          rw same (
            ground (
              arith,
              are_among-append added i.0 j.0,
              volume_paths-among added ps v i.0 h i.1,
              compute_paths-among added ps vs j.0 h j.1,
            ))
    ]
  ]
]

pub compute_new_instance_paths-among :
    (p : Plugin) (first n : ℕ) (qs : List PathRow)
    → compute_new_instance_paths p (count_up first n) ≡ some qs
    → are_among (count_up first n) qs ≡ true
unfolding compute_new_instance_paths
compute_new_instance_paths-among p first n qs e =
    compute_paths-among (count_up first n) p.paths p.volumes qs (all-count_up first n) e
