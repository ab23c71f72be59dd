-- ===== src/Risk/Loss/Table.antt =====
-- One round of the in-place table of the loss tail.
use sia_optimization_proposa.Prelude.{
  ℕ, zero, suc, ◌≤◌, ◌<◌, ◌≡◌, ◌≢◌, refl, ◌∙◌, ap, ap₂, List, [], ◌∷◌, arith, length, get_or, set,
  length-set,
}
use sia_optimization_proposa.Floats.{Floats}
use native.Mathlib.Decide.{ℕ_discrete}
use sia_optimization_proposa.Risk.Loss.{f_zero, f_one, entry, spread_at, spread}

module _ {ℓ} {A : Type ℓ} where
  get_or-set_self : (xs : List A) (i : ℕ) (v d : A) → i < length xs → get_or (set xs i v) i d ≡ v
  get_or-set_self [] i v d h = absurd (omega arith)
  get_or-set_self (x ∷ xs) zero v d h = refl
  get_or-set_self (x ∷ xs) (suc i) v d h = get_or-set_self xs i v d (omega arith)

  get_or-set_ne :
      (xs : List A) (i j : ℕ) (v d : A) → j ≢ i → get_or (set xs i v) j d ≡ get_or xs j d
  get_or-set_ne [] i j v d h = refl
  get_or-set_ne (x ∷ xs) zero zero v d h = absurd (h refl)
  get_or-set_ne (x ∷ xs) zero (suc j) v d h = refl
  get_or-set_ne (x ∷ xs) (suc i) zero v d h = refl
  get_or-set_ne (x ∷ xs) (suc i) (suc j) v d h = get_or-set_ne xs i j v d (λ e. h (ap suc e))

module _ (fl : Floats) where
  open fl use {F, add, sub, mul, lt, is_nan, nan}

  -- One round of the recurrence, from the whole previous row.
  abbrev pub next_entry : F → (ℕ → F) → ℕ → F
  next_entry p row zero = mul (row zero) (sub (f_one fl) p)
  next_entry p row (suc f) = add (mul (row (suc f)) (sub (f_one fl) p)) (mul (row f) p)

  length-spread_at : (f : ℕ) (p : F) (dp : List F) → length (spread_at fl f p dp) ≡ length dp
  unfolding spread_at
  length-spread_at f p dp = rw (length-set, length-set)

  spread_at_ne :
      (f : ℕ) (p : F) (dp : List F) (j : ℕ)
      → j ≢ suc f
      → entry fl (spread_at fl f p dp) j ≡ entry fl dp j
  unfolding spread_at
  spread_at_ne f p dp j h = rw (get_or-set_ne _ (suc f) j _ _ h, get_or-set_ne _ (suc f) j _ _ h)

  spread_at_self :
      (f : ℕ) (p : F) (dp : List F)
      → suc f < length dp
      → entry fl (spread_at fl f p dp) (suc f) ≡ next_entry p (entry fl dp) (suc f)
  unfolding spread_at
  spread_at_self f p dp k =
      let scaled = set dp (suc f) (mul (entry fl dp (suc f)) (sub (f_one fl) p)) in
      let inside : suc f < length scaled = rw (length-set dp (suc f)) k in
      get_or-set_self scaled (suc f) (add (entry fl scaled (suc f)) (mul (entry fl scaled f) p))
        (f_zero fl) inside
      ∙ ap₂ (λ x y. add x (mul y p)) (get_or-set_self dp (suc f) _ (f_zero fl) k)
          (get_or-set_ne dp (suc f) f _ (f_zero fl) (omega arith))

  pub length-spread : (f : ℕ) (p : F) (dp : List F) → length (spread fl f p dp) ≡ length dp
  unfolding spread
  length-spread zero p dp = length-set dp 0 _
  length-spread (suc f) p dp = length-spread f p (spread_at fl f p dp) ∙ length-spread_at f p dp

  pub spread_above :
      (f : ℕ) (p : F) (dp : List F) (j : ℕ) → f < j → entry fl (spread fl f p dp) j ≡ entry fl dp j
  unfolding spread
  spread_above zero p dp j h = get_or-set_ne dp 0 j _ (f_zero fl) (omega arith)
  spread_above (suc f) p dp j h =
      spread_above f p (spread_at fl f p dp) j (omega arith) ∙ spread_at_ne f p dp j (omega arith)

  pub next_entry_agrees :
      (p : F) (row other : ℕ → F) (j : ℕ)
      → ((i : ℕ) → i ≤ j → row i ≡ other i)
      → next_entry p row j ≡ next_entry p other j
  next_entry_agrees p row other zero h = ap (λ x. mul x (sub (f_one fl) p)) (h 0 (omega arith))
  next_entry_agrees p row other (suc j) h =
      ap₂ (λ x y. add (mul x (sub (f_one fl) p)) (mul y p)) (h (suc j) (omega arith))
        (h j (omega arith))

  spread_last :
      (f : ℕ) (p : F) (dp : List F)
      → suc f < length dp
      → entry fl (spread fl (suc f) p dp) (suc f) ≡ next_entry p (entry fl dp) (suc f)
  unfolding spread
  spread_last f p dp k =
      spread_above f p (spread_at fl f p dp) (suc f) (omega arith) ∙ spread_at_self f p dp k

  -- In place and downwards, the loop reads only entries that it has not written.
  pub spread_lem :
      (f : ℕ) (p : F) (dp : List F) (j : ℕ)
      → j ≤ f
      → f < length dp
      → entry fl (spread fl f p dp) j ≡ next_entry p (entry fl dp) j
  spread_lem zero p dp zero h k = unfold spread in get_or-set_self dp 0 _ (f_zero fl) k
  spread_lem zero p dp (suc j) h k = absurd (omega arith)
  spread_lem (suc f) p dp j h k = elim (ℕ_discrete j (suc f)) [
    | yes last ↦ rw last (spread_last f p dp k)
    | no below ↦
        spread_below f p dp j (omega arith) k
          (spread_lem f p (spread_at fl f p dp) j (omega arith) (rw length-spread_at (omega arith)))
  ]
    where
      spread_below :
          (f : ℕ) (p : F) (dp : List F) (j : ℕ)
          → j ≤ f
          → suc f < length dp
          → entry fl (spread fl f p (spread_at fl f p dp)) j
            ≡ next_entry p (entry fl (spread_at fl f p dp)) j
          → entry fl (spread fl (suc f) p dp) j ≡ next_entry p (entry fl dp) j
      spread_below f p dp j h k ih =
          unfold spread in
          (ih
            ∙ next_entry_agrees p (entry fl (spread_at fl f p dp)) (entry fl dp) j
                (λ i small. spread_at_ne f p dp i (omega arith)))
