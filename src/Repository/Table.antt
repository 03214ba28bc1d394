-- ===== src/Repository/Table.antt =====
-- Tables of internal/radius/repository.go: what `WHERE`, `ORDER BY` and a unique index do to the
-- rows of a table.
pub mod Distinct
pub mod Every
use radius_go.Base.{Bool, false, Option, none, some, List, [], ◌∷◌, if◌then◌else◌, is_some, ◌≡◌}
use radius_go.Base.Text.{Str, str_eq}

module _ {ℓ} {A : Type ℓ} where
  -- `SELECT … WHERE p`
  unfoldable pub select : (A → Bool) → List A → List A
  select p [] = []
  select p (a ∷ rows) = let rest = select p rows in if p a then a ∷ rest else rest

  -- `QueryRow`
  unfoldable pub first_where : (A → Bool) → List A → Option A
  first_where p [] = none
  first_where p (a ∷ rows) = if p a then some a else first_where p rows

  -- `UPDATE … SET f WHERE p`
  unfoldable pub update_where : (A → Bool) → (A → A) → List A → List A
  update_where p f [] = []
  update_where p f (a ∷ rows) = (if p a then f a else a) ∷ update_where p f rows

  -- `DELETE … WHERE p`
  unfoldable pub delete_where : (A → Bool) → List A → List A
  delete_where p [] = []
  delete_where p (a ∷ rows) = let rest = delete_where p rows in if p a then rest else a ∷ rest

  -- `ORDER BY`, with rows that compare equal in the order of the table.
  unfoldable pub place : (A → A → Bool) → A → List A → List A
  place le a [] = a ∷ []
  place le a (b ∷ rows) = if le a b then a ∷ b ∷ rows else b ∷ place le a rows

  unfoldable pub order_by : (A → A → Bool) → List A → List A
  order_by le [] = []
  order_by le (a ∷ rows) = place le a (order_by le rows)

  -- A unique index: no two rows have the same key.
  abbrev pub exists : (A → Bool) → List A → Bool
  exists p rows = is_some (first_where p rows)

  abbrev pub IsDistinct : (A → Str) → List A → Type 0
  IsDistinct key [] = Unit {0}
  IsDistinct key (a ∷ rows) =
      (exists (λ b. str_eq (key b) (key a)) rows ≡ false) × IsDistinct key rows
