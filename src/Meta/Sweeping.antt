-- ===== src/Meta/Sweeping.antt =====
-- The sweep (reconcile.go) on a record whose file was seen, and on one whose file was not.
use native.Mathlib.Nat.{mod-lt}
use smoothnas.Prelude.{
  ℕ, zero, suc, ◌+◌, ◌-◌, ◌≤◌, ◌<◌, ◌≡◌, refl, sym, ap, ◌∙◌, Bool, true, false, List, [], ◌∷◌, none,
  some, arith, ◌==◌, if◌then◌else◌, All, All-map, any, any-append, Bool-cases, inl, inr, not,
}
use smoothnas.Prelude.Eq.{nat_eq}
use smoothnas.Prelude.Maps.{Map, find}
use smoothnas.Prelude.Text.{Text, text_eq, text_beq_iff, text_beq}
use smoothnas.Meta.Record.{Record, decode, ok, inode_key}
use smoothnas.Meta.Shard.{get}
use smoothnas.Meta.Pool.{TierStore, PoolMetaStore, shard_index_of}
use smoothnas.Meta.Reconcile.{
  Victim, LiveSets, ReconcileStats, record_rank, unseen_victim, swept_at, swept_entry, swept_bucket,
  swept_shards, swept_tier, swept_tiers, sweep_dead,
}
use smoothnas.Meta.Sweep.{inode_limit, stored_at, hits, stored_at-delete_victims}
use smoothnas.Meta.Victims.{HasInodeKeys, IsUnseen, swept_tiers-IsUnseen, swept_entry-ok}

-- The rank was walked, and the inode not seen on it.
abbrev pub is_unseen : LiveSets → ℕ → ℕ → Bool
is_unseen live rank i = elim (find rank live) [
  | none ↦ false
  | some inodes ↦ not (any (λ j. j == i) inodes)
]

module _ (ns : ℕ) (live : LiveSets) (rank i : ℕ) where
  unhit :
      (vs : List Victim)
      → is_unseen live rank i ≡ false
      → All (IsUnseen live) vs
      → any (hits rank i) vs ≡ false
  unhit [] e h = refl
  unhit (v ∷ vs) e h =
      let (small, (inodes, found_live, s)) = h.0 in
      let rest = unhit vs e h.1 in
      elim (Bool-cases (v.tier == rank)) [
        | inr f ↦ ground arith
        | inl f ↦ elim (Bool-cases (v.inode == i)) [
          | inr g ↦ ground arith
          | inl g ↦
              let a : v.tier ≡ rank = ground arith in
              let b : v.inode ≡ i = ground arith in
              let fl : find rank live ≡ some inodes = ap (λ r. find r live) (sym a) ∙ found_live in
              let sl : any (λ j. j == i) inodes ≡ false =
                ap (λ n. any (λ j. j == n) inodes) (sym b) ∙ s in
              ground arith
        ]
      ]

  module _ (p : PoolMetaStore) where
    swept_at-hit :
        (rec : Record)
        → rec.namespace_id ≡ ns
        → record_rank p rank rec ≡ rank
        → is_unseen live rank i ≡ true
        → any (hits rank i) (swept_at ns p live rank i rec) ≡ true
    unfolding swept_at unseen_victim
    swept_at-hit rec n r u = ground arith

    swept_bucket-hit :
        (rec : Record) (v : Text) (m : Map Text Text)
        → i < inode_limit
        → find (inode_key i) m ≡ some v
        → decode v ≡ ok rec
        → any (hits rank i) (swept_at ns p live rank i rec) ≡ true
        → any (hits rank i) (swept_bucket ns p live rank m) ≡ true
    unfolding swept_bucket find
    swept_bucket-hit rec v [] h f d u = absurd (ground arith)
    swept_bucket-hit rec v ((k, w) ∷ m) h f d u =
        let rest = swept_bucket-hit rec v m h in
        elim (Bool-cases (text_beq k (inode_key i))) [
          | inl e ↦
              let same : k ≡ inode_key i = (text_beq_iff k (inode_key i)).0 e in
              let val : w ≡ v = ground arith in
              let hit : any (hits rank i) (swept_entry ns p live rank k (decode w)) ≡ true =
                rw (same, val, d)
                  (ap (any (hits rank i)) (swept_entry-ok ns p live rank i rec h) ∙ u) in
              ground (
                arith,
                any-append (hits rank i) (swept_entry ns p live rank k (decode w))
                    (swept_bucket ns p live rank m),
              )
          | inr e ↦
              let tail_find : find (inode_key i) m ≡ some v = ground arith in
              let hit = rest tail_find d u in
              ground (
                arith,
                any-append (hits rank i) (swept_entry ns p live rank k (decode w))
                    (swept_bucket ns p live rank m),
              )
        ]

    swept_shards-hit :
        (t : TierStore) (n index : ℕ)
        → n ≤ t.shard_count
        → t.shard_count ≤ index + n
        → index < t.shard_count
        → any (hits rank i) (swept_bucket ns p live rank (t.shards index).bucket) ≡ true
        → any (hits rank i) (swept_shards ns p live rank t n) ≡ true
    unfolding swept_shards
    swept_shards-hit t zero index le lo hi u = absurd (omega arith)
    swept_shards-hit t (suc n) index le lo hi u =
        let split =
          any-append (hits rank i)
            (swept_bucket ns p live rank (t.shards (t.shard_count - suc n)).bucket)
            (swept_shards ns p live rank t n) in
        elim (Bool-cases (index == t.shard_count - suc n)) [
          | inl e ↦
              let here : index ≡ t.shard_count - suc n = ground arith in
              let hit =
                ap (λ j. any (hits rank i) (swept_bucket ns p live rank (t.shards j).bucket))
                  (sym here)
                ∙ u in
              ground arith
          | inr e ↦
              let hit = swept_shards-hit t n index (omega arith) (ground arith) hi u in ground arith
        ]

    swept_tiers-hit :
        (ranks : List ℕ)
        → any (λ r. r == rank) ranks ≡ true
        → any (hits rank i) (swept_tier ns p live rank (p.stores rank)) ≡ true
        → any (hits rank i) (swept_tiers ns p live ranks) ≡ true
    unfolding swept_tiers
    swept_tiers-hit [] m u = absurd (ground arith)
    swept_tiers-hit (r ∷ ranks) m u =
        let split =
          any-append (hits rank i) (swept_tier ns p live r (p.stores r))
            (swept_tiers ns p live ranks) in
        elim (Bool-cases (r == rank)) [
          | inl e ↦
              let here : r ≡ rank = ground arith in
              let hit =
                ap (λ q. any (hits rank i) (swept_tier ns p live q (p.stores q))) here ∙ u in
              ground arith
          | inr e ↦ let hit = swept_tiers-hit ranks (ground arith) u in ground arith
        ]

module _ (hash : ℕ → ℕ) (ns : ℕ) (live : LiveSets) (p : PoolMetaStore)
    (stats : ReconcileStats) where
  after_sweep :
      (rank i : ℕ)
      → HasInodeKeys p
      → i < inode_limit
      → stored_at hash rank i (sweep_dead hash ns false live p stats).0 ≡ (
          if any (hits rank i) (swept_tiers ns p live p.ranks)
          then none
          else stored_at hash rank i p)
  unfolding sweep_dead
  after_sweep rank i keys small =
      let vs = swept_tiers ns p live p.ranks in
      stored_at-delete_victims hash rank i vs p small (
        All-map (IsUnseen live) (λ (v : Victim). v.inode < inode_limit) vs (λ v h. h.0)
          (swept_tiers-IsUnseen ns p live p.ranks keys))

  -- A sweep, finished or cancelled, leaves the stored record of every inode that was seen on its rank,
  -- and of every inode on a rank that was not walked, whatever the record holds, on a pool whose keys
  -- are those of inodes.
  pub seen_record_kept :
      (cancel : Bool) (rank i : ℕ)
      → HasInodeKeys p
      → i < inode_limit
      → is_unseen live rank i ≡ false
      → stored_at hash rank i (sweep_dead hash ns cancel live p stats).0 ≡ stored_at hash rank i p
  seen_record_kept true rank i keys small e = unfold sweep_dead in refl
  seen_record_kept false rank i keys small e =
      let u =
        unhit ns live rank i (swept_tiers ns p live p.ranks) e
          (swept_tiers-IsUnseen ns p live p.ranks keys) in
      let law = after_sweep rank i keys small in ground arith

  -- A sweep that is not cancelled deletes the stored record of every inode that was not seen on a tier
  -- that was walked, if the record is of the namespace of the pass and names its own tier; the keys of
  -- the pool are those of inodes. The errors of the walk do not count.
  pub unseen_record_swept :
      (rank i : ℕ) (t : TierStore) (v : Text) (rec : Record)
      → HasInodeKeys p
      → i < inode_limit
      → any (λ r. r == rank) p.ranks ≡ true
      → p.stores rank ≡ some t
      → 0 < t.shard_count
      → stored_at hash rank i p ≡ some v
      → decode v ≡ ok rec
      → rec.namespace_id ≡ ns
      → rec.tier_idx ≡ rank
      → is_unseen live rank i ≡ true
      → stored_at hash rank i (sweep_dead hash ns false live p stats).0 ≡ none
  unfolding swept_tier
  unseen_record_swept rank i t v rec keys small member known shards at d n home u =
      let index = shard_index_of hash t i in
      let bound : index < t.shard_count = mod-lt (hash i) shards in
      let at_rank : record_rank p rank rec ≡ rank = unfold record_rank in ground arith in
      let in_bucket : find (inode_key i) (t.shards index).bucket ≡ some v =
        unfold get in ground arith in
      let in_tier : any (hits rank i) (swept_tier ns p live rank (p.stores rank)) ≡ true =
        rw known (
          swept_shards-hit ns live rank i p t t.shard_count index (omega arith) (omega arith) bound
            (swept_bucket-hit ns live rank i p rec v (t.shards index).bucket small in_bucket d
              (swept_at-hit ns live rank i p rec n at_rank u))) in
      let hit = swept_tiers-hit ns live rank i p p.ranks member in_tier in
      let law = after_sweep rank i keys small in ground arith
