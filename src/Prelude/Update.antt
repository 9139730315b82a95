-- ===== src/Prelude/Update.antt =====
-- Functions on numbers that are changed at one of them.
use host_scanner.Prelude.{
  ℕ, ◌==◌, ◌≡◌, refl, sym, subst, inl, inr, if◌then◌else◌, Bool-cases, ==_iff, ==_self,
}

abbrev pub update {ℓ} : {A : Type ℓ} → (ℕ → A) → ℕ → A → ℕ → A
update f i a j = if j == i then a else f j

pub update_self {ℓ} : {A : Type ℓ} (f : ℕ → A) (i : ℕ) (a : A) → update f i a i ≡ a
update_self f i a = rw (==_self i) refl

-- What holds of the new value and of all old ones holds of all.
pub update-each {ℓ κ} :
    {A : Type ℓ} (P : ℕ → A → Type κ) (f : ℕ → A) (i : ℕ) (a : A)
    → P i a
    → ((j : ℕ) → P j (f j))
    → (j : ℕ) → P j (update f i a j)
update-each P f i a new old j = elim (Bool-cases (j == i)) [
  | inl e ↦ rw e (subst (λ k. P k a) (sym ((==_iff j i).0 e)) new)
  | inr e ↦ rw e (old j)
]
