-- ===== src/MotionControl/Control/Steady.antt =====
-- open_ctrl.cpp: what any number of calls of `ctrl` keeps.
use rtbench.Common.{
  ℕ, zero, suc, ◌+◌, ◌*◌, ◌≡◌, refl, subst, ap, ◌∙◌, arith, false, List, [], ◌∷◌, length,
}
use rtbench.MotionControl.{Counter}
use rtbench.MotionControl.Control.{Floats, Drive, ctrl, start_drives, ctrl_rounds, my_ctrl}
use rtbench.MotionControl.Control.Change.{AreSettings, IsAsymmetric, Changes, ctrl_drive-Changes}

module _ (a : Floats) where
  -- The limits of the constructor are in order.
  abbrev pub AreLimits : Type 0
  AreLimits = a.lt (a.literal 100 0) (a.neg (a.literal 100 0)) ≡ false

  abbrev pub AllSettings : List (Drive a) → Type 0
  AllSettings [] = Unit
  AllSettings (d ∷ ds) = AreSettings a d × AllSettings ds

  -- A round changes each drive, with one reading of the counter for each.
  abbrev pub AllChange : Counter → ℕ → List (Drive a) → List (Drive a) → Type 0
  AllChange o n [] [] = Unit
  AllChange o n (d ∷ ds) (d' ∷ ds') = Changes a o n d d' × AllChange o (n + 1) ds ds'
  AllChange o n _ _ = ⊥

  limits_of : (d : Drive a) → AreSettings a d → AreLimits → a.lt d.max d.min ≡ false
  limits_of d h limits = ap (λ x. a.lt x d.min) h.max ∙ ap (a.lt (a.literal 100 0)) h.min ∙ limits

  -- What a round keeps and changes.
  record IsRound (o : Counter) (n : ℕ) (ds : List (Drive a)) (r : List (Drive a) × ℕ) : Type 0 where
    kept : AllSettings (r.0)
    drives : length (r.0) ≡ length ds
    reads : r.1 ≡ n + length ds
    changed : AllChange o n ds (r.0)

  ctrl-IsRound :
      (o : Counter) (n : ℕ) (ds : List (Drive a))
      → IsAsymmetric a
      → AreLimits
      → AllSettings ds
      → IsRound o n ds (ctrl a o n ds)
  unfolding ctrl
  ctrl-IsRound o n [] asym limits h = record {
    kept = tt;
    drives = refl;
    reads = omega arith;
    changed = tt;
  }
  ctrl-IsRound o n (d ∷ ds) asym limits (h, hs) =
      let rest = ctrl-IsRound o (n + 1) ds asym limits hs in
      let (changes, keeps) = ctrl_drive-Changes a o n d asym (limits_of d h limits) in
      record {
        kept = (keeps h, rest.kept);
        drives = ap suc rest.drives;
        reads = rest.reads ∙ omega arith;
        changed = (changes, rest.changed);
      }

  start_drives-AllSettings :
      (o : Counter) (n k left : ℕ)
      → AllSettings (start_drives a o n k left) × (length (start_drives a o n k left) ≡ left)
  unfolding start_drives
  start_drives-AllSettings o n k zero = (tt, refl)
  start_drives-AllSettings o n k (suc left) =
      let (hs, e) = start_drives-AllSettings o (n + 1) (k + 1) left in
      ((record { min = refl; max = refl; kp = refl; ki = refl; kd = refl }, hs), ap suc e)

  -- What all rounds keep.
  pub record IsSteady (o : Counter) (rounds : ℕ) (r : List (Drive a) × ℕ) : Type 0 where
    pub settings : AllSettings (r.0)
    pub drives : length (r.0) ≡ 16
    pub reads : r.1 ≡ 16 + 16 * rounds
    pub next : AllChange o (r.1) (r.0) (ctrl a o (r.1) (r.0)).0

  rounds_lem :
      (o : Counter) (before rounds : ℕ) (ds : List (Drive a)) (n : ℕ)
      → IsAsymmetric a
      → AreLimits
      → AllSettings ds
      → length ds ≡ 16
      → n ≡ 16 + 16 * before
      → IsSteady o (before + rounds) (ctrl_rounds a o rounds (ds, n))
  unfolding ctrl_rounds
  rounds_lem o before zero ds n asym limits h e reads = record {
    settings = h;
    drives = e;
    reads = reads ∙ omega arith;
    next = (ctrl-IsRound o n ds asym limits h).changed;
  }
  rounds_lem o before (suc rounds) ds n asym limits h e reads =
      let r = ctrl-IsRound o n ds asym limits h in
      subst (λ k. IsSteady o k (ctrl_rounds a o rounds (ctrl a o n ds))) (omega arith)
        (rounds_lem o (before + 1) rounds (ctrl a o n ds).0 (ctrl a o n ds).1 asym limits r.kept
          (r.drives ∙ e) (r.reads ∙ omega (arith, e, reads)))

  -- With any arithmetic in which no two floats are each below the other, and 100 is not below -100:
  -- after any number of calls of `ctrl` the 16 drives have the limits and factors of the constructor, the
  -- counter was read once for each drive and call, and in the next call each speed changes by a value that
  -- is between the limits, one of them, or not ordered with one of them, as a NaN is.
  pub ctrl_rounds-IsSteady :
      (o : Counter) (rounds : ℕ)
      → IsAsymmetric a
      → AreLimits
      → IsSteady o rounds (ctrl_rounds a o rounds (my_ctrl a o))
  ctrl_rounds-IsSteady o rounds asym limits =
      let (h, e) = start_drives-AllSettings o 0 0 16 in
      subst (λ k. IsSteady o k (ctrl_rounds a o rounds (my_ctrl a o))) (omega arith)
        (rounds_lem o 0 rounds (start_drives a o 0 0 16) 16 asym limits h e refl)
