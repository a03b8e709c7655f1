-- ===== src/Pci/Search.antt =====
-- pci.c: what `pci_get_header` finds.
use rtbench.Common.{
  ◌%◌, ◌^◌, refl, ap, ℕ, zero, suc, ◌+◌, ◌<◌, ◌≤◌, ◌≡◌, sym, subst, ◌∙◌, arith, true, false,
  Bool-cases, inl, inr, Option, none, some, Option-cases, ℕ_discrete,
}
use rtbench.Pci.{
  config_address, pci_read_config_reg, Space, Pci0Header, read_header, matches, for_first,
  try_function, pci_get_header, pci_max_bus, pci_max_devices, pci_max_functions,
}

-- What a loop of `n` rounds from `i` returns: the result of the first round that has one, or none.
pub data FirstRound {ℓ} {A : Type ℓ} (body : ℕ → Option A) (i n : ℕ) : Option A → Type ℓ where
  no_round : ((k : ℕ) → i ≤ k → k < i + n → body k ≡ none) → FirstRound body i n none
  round :
      (k : ℕ) {a : A}
      → i ≤ k
      → k < i + n
      → body k ≡ some a
      → ((j : ℕ) → i ≤ j → j < k → body j ≡ none)
      → FirstRound body i n (some a)

module _ {ℓ} {A : Type ℓ} (body : ℕ → Option A) where
  none_suc :
      (i : ℕ) (k : ℕ)
      → body i ≡ none
      → ((j : ℕ) → i + 1 ≤ j → j < k → body j ≡ none)
      → (j : ℕ) → i ≤ j
      → j < k
      → body j ≡ none
  none_suc i k e h j le lt = elim (ℕ_discrete i j) [
    | yes same ↦ subst (λ t. body t ≡ none) same e
    | no other ↦ h j (omega arith) lt
  ]

  FirstRound-suc :
      (i n : ℕ) {r : Option A}
      → body i ≡ none
      → FirstRound body (i + 1) n r
      → FirstRound body i (suc n) r
  FirstRound-suc i n e (no_round h) =
      no_round (λ k le lt. none_suc i (i + 1 + n) e h k le (omega arith))
  FirstRound-suc i n e (round k le lt eq h) =
      round k (omega arith) (omega arith) eq (none_suc i k e h)

  pub for_first-FirstRound : (i n : ℕ) → FirstRound body i n (for_first body i n)
  unfolding for_first
  for_first-FirstRound i zero = no_round (λ k le lt. absurd (omega arith))
  for_first-FirstRound i (suc n) = elim (Option-cases (body i)) [
    | inl e ↦ rw (for_first, e) (FirstRound-suc i n e (for_first-FirstRound (i + 1) n))
    | inr (a, e) ↦
        rw (for_first, e) (round i (omega arith) (omega arith) e (λ j le lt. absurd (omega arith)))
  ]

abbrev IsSome {ℓ} : {A : Type ℓ} → Option A → Type 0
IsSome none = ⊥
IsSome (some a) = Unit

some_ne {ℓ} : {A : Type ℓ} {a : A} → ◌≡◌ {A = Option A} (some a) none → ⊥
some_ne e = subst IsSome e tt

rounds_none {ℓ} :
    {A : Type ℓ} {body : ℕ → Option A} {i n : ℕ} {r : Option A}
    → FirstRound body i n r
    → r ≡ none
    → (k : ℕ) → i ≤ k
    → k < i + n
    → body k ≡ none
rounds_none (no_round h) e = h
rounds_none (round k le lt eq h) e = absurd (some_ne e)

rounds_some {ℓ} :
    {A : Type ℓ} {body : ℕ → Option A} {n : ℕ} {r : Option A} {a : A}
    → FirstRound body 0 n r
    → r ≡ some a
    → (k : ℕ) × (k < n) × (body k ≡ some a) × ((j : ℕ) → j < k → body j ≡ none)
rounds_some (no_round h) e = absurd (some_ne (sym e))
rounds_some (round k le lt eq h) e = (k, omega arith, eq ∙ e, λ j below. h j (omega arith) below)

module _ (space : Space) (vendor_id device_id : ℕ) where
  -- The identifiers of a function are the two halves of its first word.
  abbrev pub HasIds : ℕ → ℕ → ℕ → Type 0
  HasIds b d f =
      (space (config_address b d f 0) 0 2 % 2 ^ 16 ≡ vendor_id)
      × (space (config_address b d f 0) 2 2 % 2 ^ 16 ≡ device_id)

  same_word : (b d f : ℕ) → config_address b d f 2 ≡ config_address b d f 0
  unfolding config_address
  same_word b d f = refl

  matches-HasIds : (b d f : ℕ) → matches space vendor_id device_id b d f ≡ true → HasIds b d f
  unfolding pci_read_config_reg
  matches-HasIds b d f m = ground (arith, ap (λ a. space a 2 2) (same_word b d f))

  matches-false : (b d f : ℕ) → matches space vendor_id device_id b d f ≡ false → ¬ HasIds b d f
  unfolding pci_read_config_reg
  matches-false b d f m h = ground (arith, ap (λ a. space a 2 2) (same_word b d f))

  -- No function of these has the two identifiers.
  abbrev pub NoFunction : ℕ → ℕ → ℕ → Type 0
  NoFunction b d n = (f : ℕ) → f < n → ¬ HasIds b d f

  abbrev pub NoDevice : ℕ → ℕ → Type 0
  NoDevice b n = (d : ℕ) → d < n → NoFunction b d pci_max_functions

  abbrev pub NoBus : ℕ → Type 0
  NoBus n = (b : ℕ) → b < n → NoDevice b pci_max_devices

  -- A result of `pci_get_header`: the header of the first function that has the identifiers, by bus,
  -- device and function below their bounds, or NULL.
  pub data Looked : Option Pci0Header → Type 0 where
    missing : NoBus pci_max_bus → Looked none
    present :
        (b d f : ℕ)
        → b < pci_max_bus
        → d < pci_max_devices
        → f < pci_max_functions
        → HasIds b d f
        → NoBus b
        → NoDevice b d
        → NoFunction b d f
        → Looked (some (read_header space b d f))

  abbrev functions : ℕ → ℕ → Option Pci0Header
  functions b d = for_first (try_function space vendor_id device_id b d) 0 pci_max_functions

  abbrev devices : ℕ → Option Pci0Header
  devices b = for_first (functions b) 0 pci_max_devices

  try_none : (b d f : ℕ) → try_function space vendor_id device_id b d f ≡ none → ¬ HasIds b d f
  unfolding try_function
  try_none b d f e = elim (Bool-cases (matches space vendor_id device_id b d f)) [
    | inl m ↦ absurd (some_ne (rw m at e))
    | inr m ↦ matches-false b d f m
  ]

  try_some :
      (b d f : ℕ) {h : Pci0Header}
      → try_function space vendor_id device_id b d f ≡ some h
      → HasIds b d f × (◌≡◌ {A = Option Pci0Header} (some h) (some (read_header space b d f)))
  unfolding try_function
  try_some b d f {h} e = elim (Bool-cases (matches space vendor_id device_id b d f)) [
    | inl m ↦ (matches-HasIds b d f m, sym (rw m at e))
    | inr m ↦ absurd (some_ne (sym (rw m at e)))
  ]

  functions-none : (b d : ℕ) → functions b d ≡ none → NoFunction b d pci_max_functions
  functions-none b d e f lt = try_none b d f (
      rounds_none
        (for_first-FirstRound (try_function space vendor_id device_id b d) 0 pci_max_functions) e f
        (omega arith) lt)

  devices-none : (b : ℕ) → devices b ≡ none → NoDevice b pci_max_devices
  devices-none b e d lt =
      functions-none b d
        (rounds_none (for_first-FirstRound (functions b) 0 pci_max_devices) e d (omega arith) lt)

  Looked-some :
      {h : Pci0Header} → pci_get_header space vendor_id device_id ≡ some h → Looked (some h)
  unfolding pci_get_header
  Looked-some e =
      let (b, hb, eb, nb) = rounds_some (for_first-FirstRound devices 0 pci_max_bus) e in
      let (d, hd, ed, nd) = rounds_some (for_first-FirstRound (functions b) 0 pci_max_devices) eb in
      let (f, hf, ef, nf) =
        rounds_some
          (for_first-FirstRound (try_function space vendor_id device_id b d) 0 pci_max_functions)
          ed in
      let (m, eq) = try_some b d f ef in
      subst Looked (sym eq) (
        present b d f hb hd hf m (λ b' lt. devices-none b' (nb b' lt))
          (λ d' lt. functions-none b d' (nd d' lt)) (λ f' lt. try_none b d f' (nf f' lt)))

  Looked-none : pci_get_header space vendor_id device_id ≡ none → Looked none
  unfolding pci_get_header
  Looked-none e = missing (λ b lt.
      devices-none b
        (rounds_none (for_first-FirstRound devices 0 pci_max_bus) e b (omega arith) lt))

  -- `pci_get_header` returns the header of the first function with the two identifiers, in the order of
  -- bus, device and function, and NULL when there is none. It looks at buses below 255, devices below
  -- 31 and functions below 7 only.
  pub pci_get_header-Looked : Looked (pci_get_header space vendor_id device_id)
  pci_get_header-Looked = elim (Option-cases (pci_get_header space vendor_id device_id)) [
    | inl e ↦ rw e (Looked-none e)
    | inr (h, e) ↦ rw e (Looked-some e)
  ]
