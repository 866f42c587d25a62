-- ===== src/Snapshot/Calls.antt =====
-- A call of CreateNamespaceSnapshot moves.
use smoothnas.Prelude.{
  ℕ, ◌+◌, ◌==◌, ◌≤◌, ◌≡◌, ◌∙◌, subst, refl, Bool, true, false, some, List, [], ◌∷◌, arith, ==_iff,
  ltb, Option-cases, Bool-cases, ◌⊎◌, inl, inr,
}
use smoothnas.Prelude.Distinct.{all, among}
use smoothnas.Prelude.Eq.{nat_eq}
use smoothnas.Snapshot.Quiesce.{Lock, begin_quiesce, end_quiesce, close_channel}
use smoothnas.Snapshot.System.{
  Worker, away, copying, blocked, signalling, Run, out, entered, held, snapping, failing, committed,
  persisted, leaving, waiting, Ran, proceed, Proceeds, first, later,
}
use smoothnas.Snapshot.Workers.{all-fits}
use smoothnas.Snapshot.Invariant.{
  fits_worker, fits_lock, fits_run, fits_runs, is_woken, begun, is_out, before,
}

below_more :
    (n m : ℕ) (cs : List ℕ)
    → n ≤ m
    → all (λ (c : ℕ). ltb c n) cs ≡ true
    → all (λ (c : ℕ). ltb c m) cs ≡ true
below_more n m [] h f = refl
below_more n m (c ∷ cs) h f = ground (arith, below_more n m cs h)

fresh : (n m : ℕ) (cs : List ℕ) → n ≤ m → all (λ (c : ℕ). ltb c n) cs ≡ true → among m cs ≡ false
fresh n m [] h f = refl
fresh n m (c ∷ cs) h f = ground (arith, fresh n m cs h, ==_iff c m)

begin-lock :
    (q : Lock) → fits_lock q ≡ true → q.quiescing ≡ false → fits_lock (begin_quiesce q) ≡ true
unfolding fits_lock begin_quiesce
begin-lock q l h = ground (arith, below_more q.made (q.made + 2) q.signals (omega arith))

end-lock : (q : Lock) → fits_lock q ≡ true → fits_lock (end_quiesce q) ≡ true
unfolding fits_lock end_quiesce
end-lock q l = ground arith

begin-worker :
    (q : Lock) (v : Worker)
    → fits_lock q ≡ true
    → q.quiescing ≡ false
    → fits_worker q v ≡ true
    → fits_worker (begin_quiesce q) v ≡ true
unfolding fits_lock begin_quiesce fits_worker
begin-worker q away l h f = refl
begin-worker q copying l h f = refl
begin-worker q (blocked c) l h f = ground arith
begin-worker q (signalling c) l h f = ground (arith, ==_iff (q.made + 1) c)

end-worker :
    (q : Lock) (v : Worker)
    → fits_lock q ≡ true
    → fits_worker q v ≡ true
    → fits_worker (end_quiesce q) v ≡ true
unfolding fits_lock end_quiesce fits_worker close_channel
end-worker q away l f = refl
end-worker q copying l f = refl
end-worker q (blocked c) l f = elim (Option-cases q.release_ch) [
  | inl i ↦ ground arith
  | inr i ↦ ground (arith, ==_iff i.0 c)
]
end-worker q (signalling c) l f = ground arith

-- What a call does to the controller.
abbrev IsChange : Lock → Lock → Type 0
IsChange q p = (p ≡ q) ⊎ ((q.quiescing ≡ false) × (p ≡ begin_quiesce q)) ⊎ (p ≡ end_quiesce q)

proceed-IsChange :
    (ok a : Bool) (q : Lock) (x : Run) (r : Ran) → proceed ok a q x ≡ some r → IsChange q r.lock
unfolding proceed
proceed-IsChange ok a q out r e = inl (ground arith)
proceed-IsChange false a q entered r e = inl (ground arith)
proceed-IsChange true a q entered r e = elim (Bool-cases q.quiescing) [
  | inl i ↦ inl (ground arith)
  | inr i ↦ inr (inl (i, ground arith))
]
proceed-IsChange true a q (waiting c) r e = inl (ground arith)
proceed-IsChange false a q (waiting c) r e = inr (inr (ground arith))
proceed-IsChange ok a q held r e = inl (ground arith)
proceed-IsChange ok a q snapping r e = inl (ground arith)
proceed-IsChange ok a q failing r e = inr (inr (ground arith))
proceed-IsChange ok a q committed r e = inr (inr (ground arith))
proceed-IsChange ok a q persisted r e = inr (inr (ground arith))
proceed-IsChange ok a q leaving r e = inl (ground arith)

pub Proceeds-IsChange :
    (a : Bool) (q : Lock) (b : Bool) (p : Lock) (xs ys : List Run)
    → Proceeds a q xs b p ys
    → IsChange q p
Proceeds-IsChange a q _ _ _ _ (first {x} {xs} {r} ok e) = proceed-IsChange ok a q x r e
Proceeds-IsChange a q b p _ _ (later {x} {xs} {ys} m) = Proceeds-IsChange a q b p xs ys m

pub change-lock : (q p : Lock) → IsChange q p → fits_lock q ≡ true → fits_lock p ≡ true
change-lock q p (inl e) l = rw e l
change-lock q p (inr (inl (i, e))) l = rw e (begin-lock q l i)
change-lock q p (inr (inr e)) l = rw e (end-lock q l)

pub change-workers :
    (q p : Lock) (ws : List Worker)
    → IsChange q p
    → fits_lock q ≡ true
    → all (fits_worker q) ws ≡ true
    → all (fits_worker p) ws ≡ true
change-workers q p ws (inl e) l f = rw e f
change-workers q p ws (inr (inl (i, e))) l f =
    rw e (all-fits q (begin_quiesce q) ws (λ v. begin-worker q v l i) f)
change-workers q p ws (inr (inr e)) l f =
    rw e (all-fits q (end_quiesce q) ws (λ v. end-worker q v l) f)

pub change-copies : (q p : Lock) → IsChange q p → p.copies_active ≡ q.copies_active
unfolding begin_quiesce end_quiesce
change-copies q p c = ground arith

-- The call that moves is the one past the flag, or becomes it.
proceed-runs :
    (ok a : Bool) (q : Lock) (ws : List Worker) (x : Run) (r : Ran)
    → proceed ok a q x ≡ some r
    → fits_lock q ≡ true
    → fits_runs a q ws (begun (x ∷ [])) ≡ true
    → fits_runs r.active r.lock ws (begun (r.run ∷ [])) ≡ true
unfolding proceed fits_lock fits_runs fits_run is_woken begun begin_quiesce end_quiesce
proceed-runs ok a q ws out r e l h = ground arith
proceed-runs false a q ws entered r e l h = ground arith
proceed-runs true a q ws entered r e l h = elim (Bool-cases (q.copies_active == 0)) [
  | inl i ↦ ground (arith, fresh q.made (q.made + 1) q.signals (omega arith))
  | inr i ↦
      ground
        (arith, fresh q.made (q.made + 1) q.signals (omega arith), ==_iff (q.made + 1) (q.made + 1))
]
proceed-runs true a q ws (waiting c) r e l h = ground arith
proceed-runs false a q ws (waiting c) r e l h = ground arith
proceed-runs ok a q ws held r e l h = ground arith
proceed-runs ok a q ws snapping r e l h = ground arith
proceed-runs ok a q ws failing r e l h = ground arith
proceed-runs ok a q ws committed r e l h = ground arith
proceed-runs ok a q ws persisted r e l h = ground arith
proceed-runs ok a q ws leaving r e l h = ground arith

-- Another call past the flag turns the move away.
first-runs :
    (ok a : Bool) (q : Lock) (ws : List Worker) (x : Run) (r : Ran) (rest : List Run)
    → proceed ok a q x ≡ some r
    → fits_lock q ≡ true
    → fits_runs a q ws (before x rest) ≡ true
    → fits_runs r.active r.lock ws (before r.run rest) ≡ true
unfolding proceed fits_runs begun
first-runs ok a q ws x r [] e l h = proceed-runs ok a q ws x r e l h
first-runs ok a q ws out r (y ∷ []) e l h = ground arith
first-runs ok a q ws out r (y ∷ z ∷ zs) e l h = absurd (ground arith)
first-runs ok a q ws _ r (y ∷ zs) e l h = absurd (ground arith)

before_out : (x : Run) (rest : List Run) → is_out x ≡ true → before x rest ≡ rest
before_out x rest h = ground arith

before_in : (x : Run) (rest : List Run) → is_out x ≡ false → before x rest ≡ x ∷ rest
before_in x rest h = ground arith

alone :
    (a : Bool) (q : Lock) (ws : List Worker) (x : Run) (rest : List Run)
    → fits_runs a q ws (x ∷ rest) ≡ true
    → (a ≡ true) × (rest ≡ [])
unfolding fits_runs
alone a q ws x [] h = ground arith
alone a q ws x (y ∷ ys) h = absurd (ground arith)

before_nil : (x : Run) (rest : List Run) → before x rest ≡ [] → (is_out x ≡ true) × (rest ≡ [])
before_nil x rest h = ground arith

out_turned :
    (ok : Bool) (q : Lock) (x : Run) (r : Ran)
    → proceed ok true q x ≡ some r
    → is_out x ≡ true
    → (r.active ≡ true) × (r.lock ≡ q) × (is_out r.run ≡ true)
unfolding proceed
out_turned ok q out r e h = ground arith
out_turned ok q _ r e h = absurd (ground arith)

turned_away :
    (q : Lock) (b : Bool) (p : Lock) (xs ys : List Run)
    → Proceeds true q xs b p ys
    → begun xs ≡ []
    → (b ≡ true) × (p ≡ q) × (begun ys ≡ [])
unfolding begun
turned_away q _ _ _ _ (first {x} {xs} {r} ok e) n =
    let empty = before_nil x (begun xs) n in
    let same = out_turned ok q x r e empty.0 in
    (same.0, same.1, before_out r.run (begun xs) same.2 ∙ empty.1)
turned_away q b p _ _ (later {x} {xs} {ys} m) n =
    let empty = before_nil x (begun xs) n in
    let same = turned_away q b p xs ys m empty.1 in
    (same.0, same.1, before_out x (begun ys) empty.0 ∙ same.2)

-- The call past the flag, when another one moves.
kept-runs :
    (a : Bool) (q : Lock) (b : Bool) (p : Lock) (ws : List Worker) (x : Run) (xs ys : List Run)
    → Proceeds a q xs b p ys
    → a ≡ true
    → begun xs ≡ []
    → fits_runs a q ws (x ∷ begun xs) ≡ true
    → fits_runs b p ws (x ∷ begun ys) ≡ true
kept-runs a q b p ws x xs ys m t n h =
    let same = turned_away q b p xs ys (subst (λ c. Proceeds c q xs b p ys) t m) n in
    rw (same.0, same.1, same.2) (rw (t, n) at h)

pub Proceeds-runs :
    (a : Bool) (q : Lock) (b : Bool) (p : Lock) (ws : List Worker) (xs ys : List Run)
    → Proceeds a q xs b p ys
    → fits_lock q ≡ true
    → fits_runs a q ws (begun xs) ≡ true
    → fits_runs b p ws (begun ys) ≡ true
unfolding begun
Proceeds-runs a q _ _ ws _ _ (first {x} {xs} {r} ok e) l h =
    first-runs ok a q ws x r (begun xs) e l h
Proceeds-runs a q b p ws _ _ (later {x} {xs} {ys} m) l h = elim (Bool-cases (is_out x)) [
  | inl i ↦
      rw (before_out x (begun ys) i)
        (Proceeds-runs a q b p ws xs ys m l (rw (before_out x (begun xs) i) at h))
  | inr i ↦
      let full = rw (before_in x (begun xs) i) at h in
      let lone = alone a q ws x (begun xs) full in
      rw (before_in x (begun ys) i) (kept-runs a q b p ws x xs ys m lone.0 lone.1 full)
]
