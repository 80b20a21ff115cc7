-- ===== src/Table.antt =====
-- A database table as the services use it through the Prisma client: rows under their primary key,
-- the newest first. The client and the database are not part of the repository; what stands here
-- is what their documentation says of `findUnique`, `create`, `update`, `delete` and `findMany`.
pub mod Sums
pub mod Predicates
use electro_mart_backend.Prelude.{
  ℕ, ◌≡◌, ◌≢◌, refl, Bool, Option, none, some, List, [], ◌∷◌, arith, ◌==◌, if◌then◌else◌,
}

abbrev pub Table {ℓ} : Type ℓ → Type ℓ
Table V = List (ℕ × V)

module _ {ℓ} {V : Type ℓ} where
  -- `findUnique({ where: { id } })`
  unfoldable pub lookup : ℕ → Table V → Option V
  lookup k [] = none
  lookup k ((j, v) ∷ t) = if k == j then some v else lookup k t

  -- `create`
  unfoldable pub insert : ℕ → V → Table V → Table V
  insert k v t = (k, v) ∷ t

  -- `update({ where: { id } })`
  unfoldable pub update : ℕ → V → Table V → Table V
  update k v [] = []
  update k v ((j, w) ∷ t) = if k == j then (j, v) ∷ t else (j, w) ∷ update k v t

  -- `delete({ where: { id } })`
  unfoldable pub delete : ℕ → Table V → Table V
  delete k [] = []
  delete k ((j, w) ∷ t) = if k == j then t else (j, w) ∷ delete k t

  -- `findMany({ where })`
  unfoldable pub rows_where : (ℕ → V → Bool) → Table V → List V
  rows_where p [] = []
  rows_where p ((j, v) ∷ t) = if p j v then v ∷ rows_where p t else rows_where p t

  -- `updateMany({ where, data })`
  unfoldable pub update_where : (ℕ → V → Bool) → (V → V) → Table V → Table V
  update_where p f [] = []
  update_where p f ((j, v) ∷ t) =
      if p j v then (j, f v) ∷ update_where p f t else (j, v) ∷ update_where p f t

  pub lookup-insert :
      (j k : ℕ) (v : V) (t : Table V)
      → lookup j (insert k v t) ≡ (if j == k then some v else lookup j t)
  unfolding lookup insert
  lookup-insert j k v t = refl

  pub lookup-update_self :
      (k : ℕ) (v old : V) (t : Table V) → lookup k t ≡ some old → lookup k (update k v t) ≡ some v
  unfolding lookup update
  lookup-update_self k v old [] h = cc
  lookup-update_self k v old ((j, w) ∷ t) h = ground (arith, lookup-update_self k v old t)

  pub lookup-update_ne :
      (j k : ℕ) (v : V) (t : Table V) → j ≢ k → lookup j (update k v t) ≡ lookup j t
  unfolding lookup update
  lookup-update_ne j k v [] h = refl
  lookup-update_ne j k v ((i, w) ∷ t) h = ground (arith, lookup-update_ne j k v t h)

  pub lookup-update :
      (j k : ℕ) (v old : V) (t : Table V)
      → lookup k t ≡ some old
      → lookup j (update k v t) ≡ (if j == k then some v else lookup j t)
  unfolding lookup update
  lookup-update j k v old [] h = cc
  lookup-update j k v old ((i, w) ∷ t) h = ground (arith, lookup-update j k v old t)

  pub lookup-delete_ne : (j k : ℕ) (t : Table V) → j ≢ k → lookup j (delete k t) ≡ lookup j t
  unfolding lookup delete
  lookup-delete_ne j k [] h = refl
  lookup-delete_ne j k ((i, w) ∷ t) h = ground (arith, lookup-delete_ne j k t h)

  -- Writing a row back gives the table from before.
  pub update-update_same :
      (k : ℕ) (v old : V) (t : Table V) → lookup k t ≡ some old → update k old (update k v t) ≡ t
  unfolding lookup update
  update-update_same k v old [] h = refl
  update-update_same k v old ((j, w) ∷ t) h = ground (arith, update-update_same k v old t)
