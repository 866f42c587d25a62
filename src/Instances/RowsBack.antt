-- ===== src/Instances/RowsBack.antt =====
-- Removing the rows that a scale-up added brings back the rows before it.
use mathlib.Core.List.{append-nil}
use smoothnas.Prelude.{ℕ, ◌+◌, ◌≡◌, ◌∙◌, ap, refl, true, List, [], ◌∷◌, ◌++◌, arith}
use smoothnas.Prelude.Eq.{nat_eq}
use smoothnas.Prelude.Text.{text_eq}
use smoothnas.Instances.Rows.{PathRow, Plugin, remove_instance_rows, recompute_state}
use smoothnas.Instances.Scale.{count_up}
use smoothnas.Instances.Keys.{
  Key, keys, units, KeepsRows, Adds, keep_keys, keep_paths, keep-append, keep_paths-append,
  units-removed, keys-remove_instance_rows, are_keys_within, are_paths_within, IsWithin,
}
use smoothnas.Instances.Numbers.{among-count_up, all-count_up, are_among}

above_kept :
    (c n : ℕ) (ks : List Key) → are_keys_within c ks ≡ true → keep_keys (count_up (c + 1) n) ks ≡ ks
above_kept c n [] h = refl
above_kept c n (k ∷ ks) h = ground (arith, among-count_up k.number (c + 1) n, above_kept c n ks)

paths_above_kept :
    (c n : ℕ) (ps : List PathRow)
    → are_paths_within c ps ≡ true
    → keep_paths (count_up (c + 1) n) ps ≡ ps
paths_above_kept c n [] h = refl
paths_above_kept c n (r ∷ ps) h =
    ground (arith, among-count_up r.instance_number (c + 1) n, paths_above_kept c n ps)

among_dropped :
    (added : List ℕ) (ps : List PathRow) → are_among added ps ≡ true → keep_paths added ps ≡ []
among_dropped added [] h = refl
among_dropped added (r ∷ ps) h = ground (arith, among_dropped added ps)

paths-remove_instance_rows :
    (target : ℕ) (removed : List ℕ) (p : Plugin)
    → (remove_instance_rows target removed p).paths ≡ keep_paths removed p.paths
unfolding remove_instance_rows recompute_state
paths-remove_instance_rows target removed p = refl

pub services-remove_instance_rows :
    (target : ℕ) (removed : List ℕ) (p : Plugin)
    → (remove_instance_rows target removed p).services ≡ p.services
unfolding remove_instance_rows recompute_state
services-remove_instance_rows target removed p = refl

pub count-remove_instance_rows :
    (target : ℕ) (removed : List ℕ) (p : Plugin)
    → (remove_instance_rows target removed p).instance_count ≡ target
unfolding remove_instance_rows recompute_state
count-remove_instance_rows target removed p = refl

-- The removal of what was added brings the rows back.
pub remove_added-KeepsRows :
    (target n : ℕ) (paths : List PathRow) (p q r : Plugin)
    → IsWithin p
    → are_among (count_up (p.instance_count + 1) n) paths ≡ true
    → Adds target (count_up (p.instance_count + 1) n) paths p q
    → KeepsRows q r
    → KeepsRows p (remove_instance_rows p.instance_count (count_up (p.instance_count + 1) n) r)
remove_added-KeepsRows target n paths p q r w m a k =
    let added = count_up (p.instance_count + 1) n in
    record {
      count = count-remove_instance_rows p.instance_count added r;
      same_services =
          services-remove_instance_rows p.instance_count added r ∙ k.same_services ∙ a.1;
      same_keys =
          keys-remove_instance_rows p.instance_count added r
          ∙ ap (keep_keys added) (k.same_keys ∙ a.2)
          ∙ keep-append added (keys p.instances) (units p.services added)
          ∙ ap (λ (ks : List Key). keep_keys added (keys p.instances) ++ ks)
              (units-removed added p.services added (all-count_up (p.instance_count + 1) n))
          ∙ append-nil (keep_keys added (keys p.instances))
          ∙ above_kept p.instance_count n (keys p.instances) w.0;
      same_paths =
          paths-remove_instance_rows p.instance_count added r
          ∙ ap (keep_paths added) (k.same_paths ∙ a.3)
          ∙ keep_paths-append added p.paths paths
          ∙ ap (λ (ps : List PathRow). keep_paths added p.paths ++ ps) (among_dropped added paths m)
          ∙ append-nil (keep_paths added p.paths)
          ∙ paths_above_kept p.instance_count n p.paths w.1;
    }
