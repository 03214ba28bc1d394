-- ===== src/Repository/Table/Every.antt =====
-- Predicates of the rows of a table, under updates, deletes and orders.
use radius_go.Base.{◌≡◌, refl, Bool, List, [], ◌∷◌, ◌++◌, if◌then◌else◌, arith, All}
use radius_go.Repository.Table.{first_where, update_where, delete_where, place, order_by, exists}

module _ {A : Type 0} (P : A → Type 0) where
  pub All-append : (xs : List A) (ys : List A) → All P xs → All P ys → All P (xs ++ ys)
  All-append [] ys h k = k
  All-append (x ∷ xs) ys h k = (h.0, All-append xs ys h.1 k)

  pub All-delete : (q : A → Bool) (rows : List A) → All P rows → All P (delete_where q rows)
  unfolding delete_where
  All-delete q [] h = h
  All-delete q (a ∷ rows) h = ground (arith, All-delete q rows h.1)

  All-place :
      (le : A → A → Bool) (a : A) (rows : List A) → P a → All P rows → All P (place le a rows)
  unfolding place
  All-place le a [] p h = (p, tt)
  All-place le a (b ∷ rows) p h = ground (arith, All-place le a rows p h.1)

  pub All-order_by : (le : A → A → Bool) (rows : List A) → All P rows → All P (order_by le rows)
  unfolding order_by
  All-order_by le [] h = h
  All-order_by le (a ∷ rows) h = All-place le a (order_by le rows) h.0 (All-order_by le rows h.1)

  pub All-remove :
      (xs : List A) (a : A) (ys : List A) → All P (xs ++ a ∷ ys) → P a × All P (xs ++ ys)
  All-remove [] a ys h = h
  All-remove (x ∷ xs) a ys h = let (p, k) = All-remove xs a ys h.1 in (p, (h.0, k))

pub All-update :
    {A : Type 0} (P Q : A → Type 0) (q : A → Bool) (f : A → A) (rows : List A)
    → ((a : A) → P a → Q (if q a then f a else a))
    → All P rows
    → All Q (update_where q f rows)
unfolding update_where
All-update P Q q f [] keep h = tt
All-update P Q q f (a ∷ rows) keep h = (keep a h.0, All-update P Q q f rows keep h.1)

module _ {A : Type 0} (p : A → Bool) where
  exists-place :
      (le : A → A → Bool) (a : A) (rows : List A) → exists p (place le a rows) ≡ exists p (a ∷ rows)
  unfolding place first_where
  exists-place le a [] = refl
  exists-place le a (b ∷ rows) = ground (arith, exists-place le a rows)

  pub exists-order_by :
      (le : A → A → Bool) (rows : List A) → exists p (order_by le rows) ≡ exists p rows
  unfolding order_by first_where
  exists-order_by le [] = refl
  exists-order_by le (a ∷ rows) =
      ground (arith, exists-place le a (order_by le rows), exists-order_by le rows)
