-- ===== src/Table/Sums.antt =====
-- Sums over the rows of a table, and what each write does to them. `total` is the specification of
-- the `aggregate({ _sum })` calls and of the SQL `SUM`s.
use electro_mart_backend.Prelude.{ℕ, ◌≡◌, Bool, some, [], ◌∷◌, foldl, if◌then◌else◌}
use electro_mart_backend.Prelude.Int.{ℤ, pos, ◌+ℤ◌, ◌-ℤ◌, int_laws}
use electro_mart_backend.Table.{Table, lookup, insert, update, delete, rows_where}

module _ {ℓ} {V : Type ℓ} where
  unfoldable pub total : (ℕ → V → ℤ) → Table V → ℤ
  total f [] = pos 0
  total f ((k, v) ∷ t) = f k v +ℤ total f t

  pub total-insert :
      (f : ℕ → V → ℤ) (k : ℕ) (v : V) (t : Table V) → total f (insert k v t) ≡ total f t +ℤ f k v
  unfolding total insert
  total-insert f k v t = omega int_laws

  pub total-update :
      (f : ℕ → V → ℤ) (k : ℕ) (v old : V) (t : Table V)
      → lookup k t ≡ some old
      → total f (update k v t) ≡ total f t -ℤ f k old +ℤ f k v
  unfolding total update lookup
  total-update f k v old [] h = cc
  total-update f k v old ((j, w) ∷ t) h = grind (int_laws, total-update f k v old t)

  pub total-delete :
      (f : ℕ → V → ℤ) (k : ℕ) (old : V) (t : Table V)
      → lookup k t ≡ some old
      → total f (delete k t) ≡ total f t -ℤ f k old
  unfolding total delete lookup
  total-delete f k old [] h = cc
  total-delete f k old ((j, w) ∷ t) h = grind (int_laws, total-delete f k old t)

  -- `rows.reduce((sum, r) => sum.add(...), ZERO)` over a `findMany` is a sum over the table.
  pub foldl-rows_where :
      (g : V → ℤ) (p : ℕ → V → Bool) (t : Table V) (acc : ℤ)
      → foldl (λ sum v. sum +ℤ g v) acc (rows_where p t)
        ≡ acc +ℤ total (λ k v. if p k v then g v else pos 0) t
  unfolding total rows_where
  foldl-rows_where g p [] acc = omega int_laws
  foldl-rows_where g p ((k, v) ∷ t) acc =
      grind (int_laws, foldl-rows_where g p t acc, foldl-rows_where g p t (acc +ℤ g v))

-- `aggregate({ where, _sum })`, an absent sum read as zero.
abbrev pub sum_where {ℓ} : {V : Type ℓ} → (V → Bool) → (V → ℤ) → Table V → ℤ
sum_where p g = total (λ _ v. if p v then g v else pos 0)
