-- ===== src/Meta/Victims.antt =====
-- Which records `sweepDead` (reconcile.go) picks.
use smoothnas.Prelude.{
  ℕ, zero, suc, ◌-◌, ◌<◌, ◌≡◌, refl, false, List, [], ◌∷◌, Option, none, some, arith, ◌==◌, All,
  All-append, any, Bool-cases, inl, inr,
}
use smoothnas.Prelude.Eq.{nat_eq}
use smoothnas.Prelude.Maps.{Map, find}
use smoothnas.Prelude.Text.{Text, text_eq}
use smoothnas.Meta.Record.{Record, Decoded, decode, ok, err, inode_key}
use smoothnas.Meta.Codec.{inode_of_key-inode_key}
use smoothnas.Meta.Pool.{TierStore, PoolMetaStore}
use smoothnas.Meta.Reconcile.{
  Victim, LiveSets, record_rank, unseen_victim, swept_at, swept_entry, swept_bucket, swept_shards,
  swept_tier, swept_tiers,
}
use smoothnas.Meta.Sweep.{inode_limit}

-- Every key of a bucket is that of an inode.
abbrev pub IsInodeEntry : Text × Text → Type 0
IsInodeEntry (k, v) = (j : ℕ) × (j < inode_limit) × (k ≡ inode_key j)

abbrev pub HasInodeKeys : PoolMetaStore → Type 0
HasInodeKeys p =
    (r n : ℕ) (t : TierStore) → p.stores r ≡ some t → All IsInodeEntry (t.shards n).bucket

-- The file was not seen on a rank that was walked.
abbrev pub IsUnseen : LiveSets → Victim → Type 0
IsUnseen live v =
    (v.inode < inode_limit)
    × ((inodes : List ℕ) × (find v.tier live ≡ some inodes)
        × (any (λ i. i == v.inode) inodes ≡ false))

module _ (ns : ℕ) (p : PoolMetaStore) (live : LiveSets) where
  unseen_victim-IsUnseen :
      (rank i : ℕ) (o : Option (List ℕ))
      → find rank live ≡ o
      → i < inode_limit
      → All (IsUnseen live) (unseen_victim rank i o)
  unfolding unseen_victim
  unseen_victim-IsUnseen rank i none e h = tt
  unseen_victim-IsUnseen rank i (some inodes) e h = elim (Bool-cases (any (λ j. j == i) inodes)) [
    | inl s ↦ rw s tt
    | inr s ↦ rw s ((h, (inodes, e, s)), tt)
  ]

  swept_at-IsUnseen :
      (rank i : ℕ) (rec : Record)
      → i < inode_limit
      → All (IsUnseen live) (swept_at ns p live rank i rec)
  unfolding swept_at
  swept_at-IsUnseen rank i rec h = elim (Bool-cases (rec.namespace_id == ns)) [
    | inl e ↦ rw e (
        unseen_victim-IsUnseen (record_rank p rank rec) i (find (record_rank p rank rec) live) refl
          h)
    | inr e ↦ rw e tt
  ]

  pub swept_entry-ok :
      (rank j : ℕ) (rec : Record)
      → j < inode_limit
      → swept_entry ns p live rank (inode_key j) (ok rec) ≡ swept_at ns p live rank j rec
  unfolding swept_entry
  swept_entry-ok rank j rec h = let e = inode_of_key-inode_key j h in ground arith

  swept_entry-IsUnseen :
      (rank j : ℕ) (d : Decoded)
      → j < inode_limit
      → All (IsUnseen live) (swept_entry ns p live rank (inode_key j) d)
  swept_entry-IsUnseen rank j (err e) h = unfold swept_entry in tt
  swept_entry-IsUnseen rank j (ok rec) h =
      rw (swept_entry-ok rank j rec h) (swept_at-IsUnseen rank j rec h)

  swept_bucket-IsUnseen :
      (rank : ℕ) (m : Map Text Text)
      → All IsInodeEntry m
      → All (IsUnseen live) (swept_bucket ns p live rank m)
  unfolding swept_bucket
  swept_bucket-IsUnseen rank [] h = tt
  swept_bucket-IsUnseen rank ((k, v) ∷ m) h =
      let (j, small, e) = h.0 in
      All-append (IsUnseen live) (swept_entry ns p live rank k (decode v))
        (swept_bucket ns p live rank m) (rw e (swept_entry-IsUnseen rank j (decode v) small))
        (swept_bucket-IsUnseen rank m h.1)

  swept_shards-IsUnseen :
      (rank : ℕ) (t : TierStore) (n : ℕ)
      → ((i : ℕ) → All IsInodeEntry (t.shards i).bucket)
      → All (IsUnseen live) (swept_shards ns p live rank t n)
  unfolding swept_shards
  swept_shards-IsUnseen rank t zero h = tt
  swept_shards-IsUnseen rank t (suc n) h =
      All-append (IsUnseen live)
        (swept_bucket ns p live rank (t.shards (t.shard_count - suc n)).bucket)
        (swept_shards ns p live rank t n)
        (swept_bucket-IsUnseen rank (t.shards (t.shard_count - suc n)).bucket
          (h (t.shard_count - suc n)))
        (swept_shards-IsUnseen rank t n h)

  swept_tier-IsUnseen :
      (rank : ℕ) (o : Option TierStore)
      → ((t : TierStore) → o ≡ some t → (i : ℕ) → All IsInodeEntry (t.shards i).bucket)
      → All (IsUnseen live) (swept_tier ns p live rank o)
  unfolding swept_tier
  swept_tier-IsUnseen rank none h = tt
  swept_tier-IsUnseen rank (some t) h = swept_shards-IsUnseen rank t t.shard_count (h t refl)

  pub swept_tiers-IsUnseen :
      (ranks : List ℕ) → HasInodeKeys p → All (IsUnseen live) (swept_tiers ns p live ranks)
  unfolding swept_tiers
  swept_tiers-IsUnseen [] h = tt
  swept_tiers-IsUnseen (rank ∷ ranks) h =
      All-append (IsUnseen live) (swept_tier ns p live rank (p.stores rank))
        (swept_tiers ns p live ranks)
        (swept_tier-IsUnseen rank (p.stores rank) (λ t e n. h rank n t e))
        (swept_tiers-IsUnseen ranks h)
