-- ===== src/Plugin/CycleWalks.antt =====
-- Walks along the edges of a graph of services (manifest.go), and orders that have no cycle.
use smoothnas.Prelude.{◌≡◌, true, List, [], ◌∷◌, arith, inl, inr, Bool-cases, ap, ◌∙◌}
use smoothnas.Prelude.Text.{Text, text_beq, text_beq_iff}
use smoothnas.Plugin.Cycle.{Graph, is_in, edges_of}

abbrev pub HasEdge : Graph → Text → Text → Type 0
HasEdge g n m = is_in m (edges_of g n) ≡ true

-- One edge or more.
pub data Walk (g : Graph) : Text → Text → Type 0 where
  last : (n m : Text) → HasEdge g n m → Walk g n m
  first : (n m k : Text) → HasEdge g n m → Walk g m k → Walk g n k

-- Each name is before those that it has edges to.
abbrev pub IsOrder : Graph → List Text → Type 0
IsOrder g [] = Unit
IsOrder g (b ∷ bs) = ((m : Text) → HasEdge g b m → is_in m bs ≡ true) × IsOrder g bs

pub is_in_head : (x : Text) (xs : List Text) → is_in x (x ∷ xs) ≡ true
unfolding is_in
is_in_head x xs = ground (arith, text_beq_iff x x)

pub is_in_tail : (x y : Text) (xs : List Text) → is_in x xs ≡ true → is_in x (y ∷ xs) ≡ true
unfolding is_in
is_in_tail x y xs h = ground arith

-- A name of an order has its edges in it.
edge-is_in :
    (g : Graph) (bs : List Text) (n m : Text)
    → IsOrder g bs
    → is_in n bs ≡ true
    → HasEdge g n m
    → is_in m bs ≡ true
edge-is_in g [] n m o h e = absurd (unfold is_in in ground arith)
edge-is_in g (b ∷ bs) n m o h e = elim (Bool-cases (text_beq b n)) [
  | inl f ↦
      let same : b ≡ n = (text_beq_iff b n).0 f in
      is_in_tail m b bs (o.0 m (ap (λ x. is_in m (edges_of g x)) same ∙ e))
  | inr f ↦
      let there : is_in n bs ≡ true = unfold is_in in ground arith in
      is_in_tail m b bs (edge-is_in g bs n m o.1 there e)
]

walk-is_in :
    (g : Graph) (bs : List Text) (n k : Text)
    → IsOrder g bs
    → is_in n bs ≡ true
    → Walk g n k
    → is_in k bs ≡ true
walk-is_in g bs n k o h (last _ _ e) = edge-is_in g bs n k o h e
walk-is_in g bs n k o h (first _ m _ e w) = walk-is_in g bs m k o (edge-is_in g bs n m o h e) w

walk_after_head :
    (g : Graph) (b : Text) (bs : List Text) (n k : Text)
    → IsOrder g (b ∷ bs)
    → b ≡ n
    → Walk g n k
    → is_in k bs ≡ true
walk_after_head g b bs n k o same (last _ _ e) = o.0 k (ap (λ x. is_in k (edges_of g x)) same ∙ e)
walk_after_head g b bs n k o same (first _ m _ e w) =
    walk-is_in g bs m k o.1 (o.0 m (ap (λ x. is_in m (edges_of g x)) same ∙ e)) w

-- A name of an order has no walk back to itself.
pub order_has_no_cycle :
    (g : Graph) (bs : List Text) (n : Text) → IsOrder g bs → is_in n bs ≡ true → ¬ Walk g n n
order_has_no_cycle g [] n o h w = absurd (unfold is_in in ground arith)
order_has_no_cycle g (b ∷ bs) n o h w = elim (Bool-cases (is_in n bs)) [
  | inl there ↦ order_has_no_cycle g bs n o.1 there w
  | inr f ↦
      let head : text_beq b n ≡ true = unfold is_in in ground arith in
      let same : b ≡ n = (text_beq_iff b n).0 head in
      let there : is_in n bs ≡ true = walk_after_head g b bs n n o same w in
      order_has_no_cycle g bs n o.1 there w
]
