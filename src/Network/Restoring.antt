-- ===== src/Network/Restoring.antt =====
-- What a change that fails, or is not confirmed, leaves of the files.
use smoothnas.Prelude.{
  ◌≡◌, refl, ap, ◌∙◌, true, false, ◌&&◌, [], ◌∷◌, Option, none, some, arith, if◌then◌else◌,
}
use smoothnas.Prelude.Maps.{find, put, find-put}
use smoothnas.Prelude.Text.{Text, text_eq, text_beq_iff}
use smoothnas.Network.Dirs.{
  Dir, Fault, is_config, copy_files, backup_files, remove_configs, restore_files,
}
use smoothnas.Network.SafeApply.{
  SafeApply, World, done, backup, restore, start_countdown, write_and_reload, apply, time_out,
  revert,
}

-- A directory has a name once.
abbrev pub IsDir : Dir → Type 0
IsDir [] = Unit
IsDir ((k, v) ∷ d) = (find k d ≡ none) × IsDir d

-- The first answer, or else the second.
abbrev pub or_else {ℓ} : {A : Type ℓ} → Option A → Option A → Option A
or_else none o = o
or_else (some a) o = some a

find-copy_files :
    (k : Text) (src dst : Dir)
    → IsDir src
    → find k (copy_files none src dst).1 ≡ or_else (find k src) (find k dst)
unfolding copy_files find
find-copy_files k [] dst h = refl
find-copy_files k ((j, v) ∷ src) dst h = ground (
  arith,
  find-copy_files k src (put j v dst) h.1,
  find-put j k v dst,
  text_beq_iff j k,
  ap (λ i. find i src),
)

put-IsDir : (k v : Text) (d : Dir) → IsDir d → IsDir (put k v d)
unfolding put find
put-IsDir k v [] h = (refl, tt)
put-IsDir k v ((j, w) ∷ d) h =
    ground (arith, put-IsDir k v d h.1, find-put k j v d, text_beq_iff j k, text_beq_iff k j)

copy_files-IsDir : (src dst : Dir) → IsDir dst → IsDir (copy_files none src dst).1
unfolding copy_files
copy_files-IsDir [] dst h = h
copy_files-IsDir ((k, v) ∷ src) dst h = copy_files-IsDir src (put k v dst) (put-IsDir k v dst h)

copy_files-ok : (src dst : Dir) → (copy_files none src dst).0 ≡ true
unfolding copy_files
copy_files-ok [] dst = refl
copy_files-ok ((k, v) ∷ src) dst = copy_files-ok src (put k v dst)

pub backup_works : (f : Fault) (d : Dir) → f ≡ none → (backup_files f d).0 ≡ true
unfolding backup_files
backup_works f d e = rw e (copy_files-ok d [])

find-remove_configs :
    (k : Text) (d : Dir) → find k (remove_configs d) ≡ (if is_config k then none else find k d)
unfolding remove_configs find
find-remove_configs k [] = ground arith
find-remove_configs k ((j, v) ∷ d) =
    ground (arith, find-remove_configs k d, text_beq_iff j k, ap is_config)

-- A file after a change of `before` into `changed` was undone: as it was before; a configuration file
-- that the change added is gone, any other stays.
abbrev pub restored_file : Text → Dir → Dir → Option Text
restored_file k before changed =
    or_else (find k before) (if is_config k then none else find k changed)

restore_files-backup :
    (k : Text) (before changed : Dir)
    → IsDir before
    → ((restore_files none (backup_files none before).1 changed).0 ≡ true)
      × (find k (restore_files none (backup_files none before).1 changed).1
          ≡ restored_file k before changed)
unfolding restore_files backup_files
restore_files-backup k before changed h =
    let kept = (copy_files none before []).1 in
    let empty : find {V = Text} k [] ≡ none = unfold find in refl in
    (
      copy_files-ok kept (remove_configs changed),
      find-copy_files k kept (remove_configs changed) (copy_files-IsDir before [] tt)
          ∙ ground (arith, find-copy_files k before [] h, find-remove_configs k changed, empty),
    )

module _ (w : World) (description : Text) (s : SafeApply) (k : Text) (idle : s.pending ≡ false)
    (sane : IsDir s.network) (backs_up : w.backup_fault ≡ none) where
  abbrev kept : Option Dir
  kept = (backup_files w.backup_fault s.network).1

  restored :
      {f : Fault}
      → f ≡ none
      → ((restore_files f kept (w.write_config s.network).1).0 ≡ true)
        × (find k (restore_files f kept (w.write_config s.network).1).1
            ≡ restored_file k s.network (w.write_config s.network).1)
  restored r = rw (r, backs_up) (restore_files-backup k s.network (w.write_config s.network).1 sane)

  -- While nothing is pending and the file operations succeed, a change whose files or whose reload
  -- fail is refused, and every file is as it was before, but for those the change added that are no
  -- configuration files.
  pub failed_apply_restores :
      w.restore_fault ≡ none
      → (w.write_config s.network).0 && w.reloads ≡ false
      → ((apply w description s).1.pending ≡ false)
        × (find k (apply w description s).1.network
            ≡ restored_file k s.network (w.write_config s.network).1)
  unfolding apply backup write_and_reload restore
  failed_apply_restores r f =
      ground (arith, restored r, backup_works w.backup_fault s.network backs_up)

  -- While nothing is pending and the file operations succeed, a change that is written and reloaded
  -- is pending, and if it then times out, or is reverted and reloads, every file is as it was before,
  -- but for those the change added that are no configuration files.
  pub unconfirmed_restores :
      (later : World)
      → later.restore_fault ≡ none
      → later.reloads ≡ true
      → (w.write_config s.network).0 && w.reloads ≡ true
      → let pending_change = (apply w description s).1 in
        (pending_change.pending ≡ true)
        × (find k (time_out later pending_change).network
            ≡ restored_file k s.network (w.write_config s.network).1)
        × ((time_out later pending_change).pending ≡ false)
        × ((revert later pending_change).0 ≡ done)
        × ((revert later pending_change).1.network ≡ (time_out later pending_change).network)
  unfolding apply backup write_and_reload restore time_out revert start_countdown
  unconfirmed_restores later r l f =
      ground (arith, restored r, backup_works w.backup_fault s.network backs_up)
