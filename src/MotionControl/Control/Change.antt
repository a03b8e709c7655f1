-- ===== src/MotionControl/Control/Change.antt =====
-- open_ctrl.cpp: `memset`, and what one round of the control does to one drive.
use rtbench.Common.{
  ℕ, zero, suc, ◌+◌, ◌≡◌, ◌⊎◌, inl, inr, refl, sym, ap, ◌∙◌, arith, true, false, Bool-cases, ltb,
  ◌==◌, if◌then◌else◌, ◌&&◌,
}
use rtbench.Memory.{Mem, store}
use rtbench.MotionControl.{Counter}
use rtbench.MotionControl.Control.{
  Floats, own_memset, own_memset_loop, Drive, clamp, speed_up, pid_update, raw_change, ctrl_drive,
  cur_us, delta_us, moved, measured_speed,
}

own_memset_loop_lem :
    (n : ℕ) (m : Mem) (ptr s size x : ℕ)
    → own_memset_loop n m ptr s size x ≡ (if ltb 0 n && x == ptr + size then s else m x)
unfolding own_memset_loop
own_memset_loop_lem zero m ptr s size x = refl
own_memset_loop_lem (suc n) m ptr s size x =
    ground (arith, own_memset_loop_lem n (store m (ptr + size) s) ptr s size x)

-- The file's `memset` writes the one byte behind the object, and none of the object.
own_memset_lem :
    (m : Mem) (ptr s size x : ℕ)
    → own_memset m ptr s size x ≡ (if ltb 0 size && x == ptr + size then s else m x)
unfolding own_memset
own_memset_lem m ptr s size x = own_memset_loop_lem size m ptr s size x

module _ (a : Floats) where
  -- What the control never changes.
  pub record AreSettings (d : Drive a) : Type 0 where
    pub min : d.min ≡ a.neg (a.literal 100 0)
    pub max : d.max ≡ a.literal 100 0
    pub kp : d.kp ≡ a.literal 1 2
    pub ki : d.ki ≡ a.literal 5 2
    pub kd : d.kd ≡ a.literal 1 5

  -- An order of the floats, NaN included: no two are each below the other.
  abbrev pub IsAsymmetric : Type 0
  IsAsymmetric = (x y : a.F) → a.lt x y ≡ true → a.lt y x ≡ false

  -- The order does not tell the two apart: they are equal, or one is a NaN.
  abbrev pub IsUnordered : a.F → a.F → Type 0
  IsUnordered x y = (a.lt x y ≡ false) × (a.lt y x ≡ false)

  -- What is left of a sum with the limits: between them, one of them, or not ordered with one of them,
  -- as a NaN is with both. It is never above the greater limit nor below the smaller one.
  pub record IsClamped (min max x : a.F) : Type 0 where
    pub not_above : a.lt max x ≡ false
    pub not_below : a.lt x min ≡ false
    pub within :
        (a.lt x max ≡ true) × (a.lt min x ≡ true)
        ⊎ ((x ≡ max) ⊎ (x ≡ min))
        ⊎ (IsUnordered x max ⊎ IsUnordered x min)

  -- What `pid_update` returns, and what it leaves of the drive.
  record Updated (d : Drive a) (set : a.F) (r : Drive a × a.F) : Type 0 where
    clamped : IsClamped d.min d.max (r.1)
    speed : r.0.speed ≡ d.speed
    position : r.0.position ≡ d.position
    last_position : r.0.last_position ≡ d.last_position
    time : r.0.time ≡ d.time
    error : r.0.e ≡ a.sub set d.speed
    integral :
        (r.0.i ≡ d.i)
        ⊎ ((r.0.i ≡ a.add d.i (a.sub set d.speed))
            × (a.lt (r.1) d.max ≡ true)
            × (a.lt d.min (r.1) ≡ true))
    settings : AreSettings d → AreSettings (r.0)

  not_below_itself : IsAsymmetric → (x : a.F) → a.lt x x ≡ false
  not_below_itself asym x = elim (Bool-cases (a.lt x x)) [ inl e ↦ asym x x e | inr e ↦ e ]

  -- The integral stays.
  held :
      (d : Drive a) (set ret : a.F)
      → IsClamped d.min d.max ret
      → Updated d set (record d { e = a.sub set d.speed }, ret)
  held d set ret clamped = record {
    clamped = clamped;
    speed = refl;
    position = refl;
    last_position = refl;
    time = refl;
    error = refl;
    integral = inl refl;
    settings = λ h. record { min = h.min; max = h.max; kp = h.kp; ki = h.ki; kd = h.kd };
  }

  summed :
      (d : Drive a) (set ret : a.F)
      → IsAsymmetric
      → a.lt ret d.max ≡ true
      → a.lt d.min ret ≡ true
      → Updated d set (record d { e = a.sub set d.speed; i = a.add d.i (a.sub set d.speed) }, ret)
  summed d set ret asym below above = record {
    clamped = record {
      not_above = asym ret d.max below;
      not_below = asym d.min ret above;
      within = inl (below, above);
    };
    speed = refl;
    position = refl;
    last_position = refl;
    time = refl;
    error = refl;
    integral = inr (refl, below, above);
    settings = λ h. record { min = h.min; max = h.max; kp = h.kp; ki = h.ki; kd = h.kd };
  }

  at_max : (d : Drive a) → IsAsymmetric → a.lt d.max d.min ≡ false → IsClamped d.min d.max d.max
  at_max d asym limits = record {
    not_above = not_below_itself asym d.max;
    not_below = limits;
    within = inr (inl (inl refl));
  }

  at_min : (d : Drive a) → IsAsymmetric → a.lt d.max d.min ≡ false → IsClamped d.min d.max d.min
  at_min d asym limits = record {
    not_above = limits;
    not_below = not_below_itself asym d.min;
    within = inr (inl (inr refl));
  }

  unordered :
      (d : Drive a) (x : a.F)
      → a.lt d.max x ≡ false
      → a.lt x d.min ≡ false
      → (a.lt x d.max ≡ false) ⊎ (a.lt d.min x ≡ false)
      → IsClamped d.min d.max x
  unordered d x not_above not_below not_between = record {
    not_above = not_above;
    not_below = not_below;
    within = elim not_between [
      | inl e ↦ inr (inr (inl (e, not_above)))
      | inr e ↦ inr (inr (inr (not_below, e)))
    ];
  }

  beyond-Updated :
      (d : Drive a) (set ret : a.F)
      → IsAsymmetric
      → a.lt d.max d.min ≡ false
      → (a.lt ret d.max ≡ false) ⊎ (a.lt d.min ret ≡ false)
      → (let d' = record d { e = a.sub set d.speed } in
          Updated d set (
            if a.lt d.max ret
            then (d', d.max)
            else if a.lt ret d.min
            then (d', d.min)
            else (d', ret)))
  beyond-Updated d set ret asym limits not_between = elim (Bool-cases (a.lt d.max ret)) [
    | inl over ↦ rw over (held d set d.max (at_max d asym limits))
    | inr not_over ↦ elim (Bool-cases (a.lt ret d.min)) [
      | inl under ↦ rw (not_over, under) (held d set d.min (at_min d asym limits))
      | inr not_under ↦
          rw (not_over, not_under) (held d set ret (unordered d ret not_over not_under not_between))
    ]
  ]

  clamp-Updated :
      (d : Drive a) (set ret : a.F)
      → IsAsymmetric
      → a.lt d.max d.min ≡ false
      → Updated d set
          (clamp a (record d { e = a.sub set d.speed }) (a.add d.i (a.sub set d.speed)) ret)
  clamp-Updated d set ret asym limits = elim (Bool-cases (a.lt ret d.max)) [
    | inl below ↦ elim (Bool-cases (a.lt d.min ret)) [
      | inl above ↦ rw (below, above) (summed d set ret asym below above)
      | inr not_above ↦ rw (below, not_above) (beyond-Updated d set ret asym limits (inr not_above))
    ]
    | inr not_below ↦ rw not_below (beyond-Updated d set ret asym limits (inl not_below))
  ]

  pid_update-Updated :
      (d : Drive a) (set : a.F)
      → IsAsymmetric
      → a.lt d.max d.min ≡ false
      → Updated d set (pid_update a d set)
  unfolding pid_update
  pid_update-Updated d set asym limits =
      clamp-Updated d set (raw_change a d d.e (a.sub set d.speed) (a.add d.i (a.sub set d.speed)))
        asym limits

  -- One round for a drive: the speed changes by what is left of a sum with the limits, the time and the position
  -- before are noted, and the error is measured against the speed with 2 added.
  pub record Changes (o : Counter) (n : ℕ) (d d' : Drive a) : Type 0 where
    pub change : a.F
    pub clamped : IsClamped d.min d.max change
    pub speed : d'.speed ≡ a.add d.speed change
    pub time : d'.time ≡ cur_us a o n
    pub last_position : d'.last_position ≡ d.position
    pub error :
        d'.e
        ≡ a.sub (a.add (measured_speed a d (delta_us a d (cur_us a o n))) (a.literal 2 0)) d.speed
    pub integral : (d'.i ≡ d.i) ⊎ (d'.i ≡ a.add d.i d'.e)

  -- What a round gives, from the drive that has noted time and position and from what `pid_update` made
  -- of it.
  speed_up-Changes :
      (o : Counter) (n : ℕ) (d : Drive a) (position : a.F) (r : Drive a × a.F)
      → Updated
          (record d { time = cur_us a o n; last_position = d.position; position = position })
          (a.add (measured_speed a d (delta_us a d (cur_us a o n))) (a.literal 2 0))
          r
      → Changes o n d (speed_up a r) × (AreSettings d → AreSettings (speed_up a r))
  speed_up-Changes o n d position (d', change) u = (
    record {
      change = change;
      clamped = u.clamped;
      speed = ap (λ x. a.add x change) u.speed;
      time = u.time;
      last_position = u.last_position;
      error = u.error;
      integral = elim u.integral [
        | inl e ↦ inl e
        | inr (e, below, above) ↦ inr (e ∙ ap (a.add d.i) (sym u.error))
      ];
    },
    λ h.
        let h' =
          u.settings (record { min = h.min; max = h.max; kp = h.kp; ki = h.ki; kd = h.kd }) in
        record { min = h'.min; max = h'.max; kp = h'.kp; ki = h'.ki; kd = h'.kd },
  )

  pub ctrl_drive-Changes :
      (o : Counter) (n : ℕ) (d : Drive a)
      → IsAsymmetric
      → a.lt d.max d.min ≡ false
      → Changes o n d (ctrl_drive a o n d) × (AreSettings d → AreSettings (ctrl_drive a o n d))
  unfolding ctrl_drive
  ctrl_drive-Changes o n d asym limits =
      let delta = delta_us a d (cur_us a o n) in
      let noted = record d {
        time = cur_us a o n;
        last_position = d.position;
        position = moved a d delta;
      } in
      let set = a.add (measured_speed a d delta) (a.literal 2 0) in
      speed_up-Changes o n d (moved a d delta) (pid_update a noted set)
        (pid_update-Updated noted set asym limits)
