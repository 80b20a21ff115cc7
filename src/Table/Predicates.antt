-- ===== src/Table/Predicates.antt =====
-- A property of every row of a table, and what each call keeps of it.
use mathlib.Core.Path.{subst₂, sym}
use electro_mart_backend.Prelude.{
  ◌≤◌, keep, length, List, false, true, Bool, ℕ, ◌≡◌, some, [], ◌∷◌, ◌==◌, ==→eq, arith, Bool-cases,
  inl, inr,
}
use electro_mart_backend.Table.{rows_where, update_where, Table, lookup, insert, update, delete}

abbrev pub AllRows {ℓ κ} : {V : Type ℓ} → (ℕ → V → Type κ) → Table V → Type κ
AllRows P [] = Unit
AllRows P ((k, v) ∷ t) = P k v × AllRows P t

module _ {V : Type 0} (P : ℕ → V → Type 0) where
  pub AllRows-lookup : (k : ℕ) (v : V) (t : Table V) → AllRows P t → lookup k t ≡ some v → P k v
  unfolding lookup
  AllRows-lookup k v [] a e = cc
  AllRows-lookup k v ((j, w) ∷ t) (p, ps) e = elim (Bool-cases (k == j)) [
    | inl same ↦ let value : w ≡ v = ground arith in subst₂ P (sym (==→eq k j same)) value p
    | inr differ ↦ AllRows-lookup k v t ps (ground arith)
  ]

  pub AllRows-insert :
      (k : ℕ) (v : V) (t : Table V) → AllRows P t → P k v → AllRows P (insert k v t)
  unfolding insert
  AllRows-insert k v t a p = (p, a)

  pub AllRows-update :
      (k : ℕ) (v : V) (t : Table V) → AllRows P t → P k v → AllRows P (update k v t)
  unfolding update
  AllRows-update k v [] a p = tt
  AllRows-update k v ((j, w) ∷ t) (q, qs) p = elim (Bool-cases (k == j)) [
    | inl same ↦ rw same (rw (==→eq k j same) at p, qs)
    | inr differ ↦ rw differ (q, AllRows-update k v t qs p)
  ]

  pub AllRows-delete : (k : ℕ) (t : Table V) → AllRows P t → AllRows P (delete k t)
  unfolding delete
  AllRows-delete k [] a = tt
  AllRows-delete k ((j, w) ∷ t) (q, qs) = elim (Bool-cases (k == j)) [
    | inl same ↦ rw same qs
    | inr differ ↦ rw differ (q, AllRows-delete k t qs)
  ]

-- `updateMany`: what holds of the rows that it writes, and of the others.
pub AllRows-update_where :
    {V : Type 0} (P Q : ℕ → V → Type 0) (p : ℕ → V → Bool) (f : V → V) (t : Table V)
    → AllRows P t
    → ((k : ℕ) (v : V) → P k v → p k v ≡ true → Q k (f v))
    → ((k : ℕ) (v : V) → P k v → p k v ≡ false → Q k v)
    → AllRows Q (update_where p f t)
unfolding update_where
AllRows-update_where P Q p f [] all yes_ no_ = tt
AllRows-update_where P Q p f ((k, v) ∷ t) (a, all) yes_ no_ = elim (Bool-cases (p k v)) [
  | inl holds ↦ rw holds (yes_ k v a holds, AllRows-update_where P Q p f t all yes_ no_)
  | inr fails ↦ rw fails (no_ k v a fails, AllRows-update_where P Q p f t all yes_ no_)
]

pub AllRows-mono :
    {V : Type 0} (P Q : ℕ → V → Type 0) (t : Table V)
    → AllRows P t
    → ((k : ℕ) (v : V) → P k v → Q k v)
    → AllRows Q t
AllRows-mono P Q [] all f = tt
AllRows-mono P Q ((k, v) ∷ t) (a, all) f = (f k v a, AllRows-mono P Q t all f)

pub AllRows-both :
    {V : Type 0} (P Q : ℕ → V → Type 0) (t : Table V)
    → AllRows P t
    → AllRows Q t
    → AllRows (λ k v. P k v × Q k v) t
AllRows-both P Q [] p q = tt
AllRows-both P Q ((k, v) ∷ t) (p, ps) (q, qs) = ((p, q), AllRows-both P Q t ps qs)

length-keep : {V : Type 0} (q : V → Bool) (xs : List V) → length (keep q xs) ≤ length xs
length-keep q [] = omega arith
length-keep q (x ∷ xs) = let rest = length-keep q xs in ground arith

-- When a filter drops none of the rows, each of them passes it.
pub AllRows-kept :
    {V : Type 0} (p : ℕ → V → Bool) (q : V → Bool) (t : Table V)
    → length (keep q (rows_where p t)) ≡ length (rows_where p t)
    → AllRows (λ k v. p k v ≡ true → q v ≡ true) t
unfolding rows_where
AllRows-kept p q [] h = tt
AllRows-kept p q ((k, v) ∷ t) h = elim (Bool-cases (p k v)) [
  | inr out ↦ ((λ in_. cc), AllRows-kept p q t (rw out at h))
  | inl in_ ↦ elim (Bool-cases (q v)) [
    | inl passes ↦
        let rest = rw (in_, passes) at h in ((λ _. passes), AllRows-kept p q t (ground arith))
    | inr fails ↦
        let fewer = length-keep q (rows_where p t) in
        let rest = rw (in_, fails) at h in absurd (ground arith)
  ]
]
