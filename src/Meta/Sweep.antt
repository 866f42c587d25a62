-- ===== src/Meta/Sweep.antt =====
-- What the deletes of `sweepDead` (reconcile.go) leave of each record.
use smoothnas.Prelude.{
  ℕ, ◌<◌, ◌≡◌, refl, sym, ap, ◌∙◌, Bool, ◌&&◌, List, [], ◌∷◌, Option, none, some, arith, ◌==◌,
  if◌then◌else◌, All, any, Bool-cases, Option-cases, inl, inr, ==_iff,
}
use smoothnas.Prelude.Maps.{find-erase}
use smoothnas.Prelude.Text.{Text, text_eq, text_beq, text_beq_iff}
use smoothnas.Meta.Record.{inode_key, inode_of_key}
use smoothnas.Meta.Codec.{inode_of_key-inode_key}
use smoothnas.Meta.Shard.{del, get}
use smoothnas.Meta.Pool.{TierStore, PoolMetaStore, shard_for, set_shard, pool_delete}
use smoothnas.Meta.PoolLaws.{shard_at}
use smoothnas.Meta.Reconcile.{Victim, delete_victims}

abbrev pub inode_limit : ℕ
inode_limit = 18446744073709551616

inode_key-inj : (i j : ℕ) → i < inode_limit → j < inode_limit → inode_key i ≡ inode_key j → i ≡ j
inode_key-inj i j hi hj e =
    ground
      (arith, sym (inode_of_key-inode_key i hi) ∙ ap inode_of_key e ∙ inode_of_key-inode_key j hj)

key_beq :
    (i j : ℕ) → i < inode_limit → j < inode_limit → text_beq (inode_key i) (inode_key j) ≡ (i == j)
key_beq i j hi hj = elim (Bool-cases (i == j)) [
  | inl e ↦
      let same : i ≡ j = (==_iff i j).0 e in
      (text_beq_iff (inode_key i) (inode_key j)).1 (ap inode_key same) ∙ sym e
  | inr e ↦ elim (Bool-cases (text_beq (inode_key i) (inode_key j))) [
    | inr f ↦ f ∙ sym e
    | inl f ↦ absurd (
        let same = inode_key-inj i j hi hj ((text_beq_iff (inode_key i) (inode_key j)).0 f) in
        ground arith)
  ]
]

-- The delete is of the inode on the rank.
abbrev pub hits : ℕ → ℕ → Victim → Bool
hits r i v = v.tier == r && v.inode == i

module _ (hash : ℕ → ℕ) where
  -- The stored record of the inode on a rank, encoded.
  abbrev pub stored_at : ℕ → ℕ → PoolMetaStore → Option Text
  stored_at rank i p = elim (shard_at hash rank i p) [ none ↦ none | some s ↦ get (inode_key i) s ]

  get_after_del :
      (t : TierStore) (i j : ℕ)
      → i < inode_limit
      → j < inode_limit
      → get
          (inode_key i)
          (shard_for hash (set_shard hash t j (del (inode_key j) (shard_for hash t j))) i)
        ≡ (if j == i then none else get (inode_key i) (shard_for hash t i))
  unfolding get del
  get_after_del t i j hi hj =
      ground (
        arith,
        key_beq j i hj hi,
        find-erase (inode_key j) (inode_key i) (shard_for hash t j).bucket,
      )

  stored_at-pool_delete :
      (r q i j : ℕ) (p : PoolMetaStore)
      → i < inode_limit
      → j < inode_limit
      → stored_at r i (pool_delete hash j q p)
        ≡ (if q == r && j == i then none else stored_at r i p)
  unfolding pool_delete get del
  stored_at-pool_delete r q i j p hi hj = elim (Option-cases (p.stores q)) [
    | inl e ↦ ground arith
    | inr (t, e) ↦ ground (arith, get_after_del t i j hi hj)
  ]

  pub stored_at-delete_victims :
      (r i : ℕ) (vs : List Victim) (p : PoolMetaStore)
      → i < inode_limit
      → All (λ (v : Victim). v.inode < inode_limit) vs
      → stored_at r i (delete_victims hash vs p)
        ≡ (if any (hits r i) vs then none else stored_at r i p)
  unfolding delete_victims
  stored_at-delete_victims r i [] p hi hs = refl
  stored_at-delete_victims r i (v ∷ vs) p hi hs = ground (
    arith,
    stored_at-delete_victims r i vs (pool_delete hash v.inode v.tier p) hi hs.1,
    stored_at-pool_delete r v.tier i v.inode p hi hs.0,
  )
