-- ===== src/Platform/Lock/Family.antt =====
-- Families indexed by numbers: a write at one index, and sums over the first `n`.
use octo_doc.Base.{ℕ, zero, suc, ◌+◌, ◌≤◌, ◌<◌, ◌≡◌, refl, eqb, arith, if◌then◌else◌}

module _ {ℓ} {A : Type ℓ} where
  abbrev pub update : (ℕ → A) → ℕ → A → ℕ → A
  update f i v j = if eqb i j then v else f j

  abbrev pub total : (A → ℕ) → ℕ → (ℕ → A) → ℕ
  total p zero f = 0
  total p (suc n) f = total p n f + p (f n)

  total-update_outside :
      (p : A → ℕ) (n i : ℕ) (f : ℕ → A) (v : A) → n ≤ i → total p n (update f i v) ≡ total p n f
  total-update_outside p zero i f v h = refl
  total-update_outside p (suc n) i f v h = ground (arith, total-update_outside p n i f v)

  pub total-update :
      (p : A → ℕ) (n i : ℕ) (f : ℕ → A) (v : A)
      → i < n
      → total p n (update f i v) + p (f i) ≡ total p n f + p v
  total-update p zero i f v h = elim h [ ]
  total-update p (suc n) i f v h =
      ground (arith, total-update p n i f v, total-update_outside p n i f v)

  pub member-le-total : (p : A → ℕ) (n i : ℕ) (f : ℕ → A) → i < n → p (f i) ≤ total p n f
  member-le-total p zero i f h = elim h [ ]
  member-le-total p (suc n) i f h = ground (arith, member-le-total p n i f)

  pub two-le-total :
      (p : A → ℕ) (n i j : ℕ) (f : ℕ → A) → i < j → j < n → p (f i) + p (f j) ≤ total p n f
  two-le-total p zero i j f h k = elim k [ ]
  two-le-total p (suc n) i j f h k =
      ground (arith, two-le-total p n i j f h, member-le-total p n i f)

  -- A positive sum has a positive term.
  pub find-total :
      (p : A → ℕ) (n : ℕ) (f : ℕ → A) → 0 < total p n f → (i : ℕ) × (i < n) × (0 < p (f i))
  find-total p zero f h = elim h [ ]
  find-total p (suc n) f h =
      elim (p (f n)) as (λ v. p (f n) ≡ v → (i : ℕ) × (i < suc n) × (0 < p (f i))) [
        | zero ↦ λ e. let (i, lt, pos) = find-total p n f (omega arith) in (i, omega arith, pos)
        | suc v ↦ λ e. (n, omega arith, omega arith)
      ]
        refl
