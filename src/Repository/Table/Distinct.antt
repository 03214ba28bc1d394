-- ===== src/Repository/Table/Distinct.antt =====
-- Unique indexes of the tables of internal/radius/repository.go, under inserts, updates and deletes.
use radius_go.Base.{
  ◌≡◌, refl, sym, ◌∙◌, ap, Bool, false, ◌&&◌, ◌||◌, not, List, [], ◌∷◌, ◌++◌, arith, Bool-cases,
  inl, inr,
}
use radius_go.Base.Text.{Str, str_eq, str_eq_iff}
use radius_go.Repository.Table.{first_where, update_where, delete_where, exists, IsDistinct}

module _ {ℓ} {A : Type ℓ} where
  pub exists-append :
      (p : A → Bool) (a : A) (rows : List A) → exists p (rows ++ a ∷ []) ≡ (exists p rows || p a)
  unfolding first_where
  exists-append p a [] = ground arith
  exists-append p a (b ∷ rows) = ground (arith, exists-append p a rows)

  pub exists-delete :
      (p q : A → Bool) (rows : List A)
      → exists p rows ≡ false
      → exists p (delete_where q rows) ≡ false
  unfolding first_where delete_where
  exists-delete p q [] h = refl
  exists-delete p q (b ∷ rows) h = ground (arith, exists-delete p q rows)

  -- An update that a test does not see.
  pub exists-update_same :
      (p q : A → Bool) (f : A → A) (rows : List A)
      → ((a : A) → p (f a) ≡ p a)
      → exists p (update_where q f rows) ≡ exists p rows
  unfolding first_where update_where
  exists-update_same p q f [] same = refl
  exists-update_same p q f (b ∷ rows) same =
      ground (arith, same b, exists-update_same p q f rows same)

  exists-update_off :
      (p q : A → Bool) (f : A → A) (rows : List A)
      → exists p rows ≡ false
      → ((a : A) → p (f a) ≡ false)
      → exists p (update_where q f rows) ≡ false
  unfolding first_where update_where
  exists-update_off p q f [] h off = refl
  exists-update_off p q f (b ∷ rows) h off = ground (arith, off b, exists-update_off p q f rows)

  -- No row satisfies the test: the update changes nothing.
  pub update_where-none :
      (q : A → Bool) (f : A → A) (rows : List A)
      → exists q rows ≡ false
      → update_where q f rows ≡ rows
  unfolding first_where update_where
  update_where-none q f [] h = refl
  update_where-none q f (b ∷ rows) h = ground (arith, update_where-none q f rows)

  pub append-IsDistinct :
      (key : A → Str) (a : A) (rows : List A)
      → IsDistinct key rows
      → exists (λ b. str_eq (key b) (key a)) rows ≡ false
      → IsDistinct key (rows ++ a ∷ [])
  unfolding first_where
  append-IsDistinct key a [] d h = (refl, tt)
  append-IsDistinct key a (b ∷ rows) d h = ground (
    arith,
    append-IsDistinct key a rows d.1,
    exists-append (λ c. str_eq (key c) (key b)) a rows,
    str_eq_iff (key a) (key b),
    str_eq_iff (key b) (key a),
  )

  pub delete-IsDistinct :
      (key : A → Str) (q : A → Bool) (rows : List A)
      → IsDistinct key rows
      → IsDistinct key (delete_where q rows)
  unfolding delete_where
  delete-IsDistinct key q [] d = d
  delete-IsDistinct key q (b ∷ rows) d = ground (
    arith,
    delete-IsDistinct key q rows d.1,
    exists-delete (λ c. str_eq (key c) (key b)) q rows d.0,
  )

  -- An update that keeps the key.
  pub update-IsDistinct :
      (key : A → Str) (q : A → Bool) (f : A → A) (rows : List A)
      → ((a : A) → key (f a) ≡ key a)
      → IsDistinct key rows
      → IsDistinct key (update_where q f rows)
  unfolding update_where
  update-IsDistinct key q f [] same d = d
  update-IsDistinct key q f (b ∷ rows) same d = ground (
    arith,
    update-IsDistinct key q f rows same d.1,
    same b,
    exists-update_same (λ c. str_eq (key c) (key b)) q f rows
        (λ c. ap (λ (s : Str). str_eq s (key b)) (same c)),
    d.0,
  )

  -- A test that holds of no other row and of no row with the identifier.
  exists_elsewhere :
      (p q : A → Bool) (rows : List A)
      → exists (λ a. p a && not (q a)) rows ≡ false
      → exists q rows ≡ false
      → exists p rows ≡ false
  unfolding first_where
  exists_elsewhere p q [] h k = refl
  exists_elsewhere p q (b ∷ rows) h k = ground (arith, exists_elsewhere p q rows)

  -- A new name for the row of one identifier, which no row with another identifier has.
  pub rename-IsDistinct :
      (id name : A → Str) (k n : Str) (f : A → A) (rows : List A)
      → ((a : A) → name (f a) ≡ n)
      → IsDistinct id rows
      → IsDistinct name rows
      → exists (λ a. str_eq (name a) n && not (str_eq (id a) k)) rows ≡ false
      → IsDistinct name (update_where (λ a. str_eq (id a) k) f rows)
  unfolding update_where first_where
  rename-IsDistinct id name k n f [] named d e free = e
  rename-IsDistinct id name k n f (b ∷ rows) named d e free = elim (Bool-cases (str_eq (id b) k)) [
    | inl it ↦
        let same : id b ≡ k = (str_eq_iff (id b) k).0 it in
        let gone : exists (λ a. str_eq (id a) k) rows ≡ false =
          ap (λ (s : Str). exists (λ a. str_eq (id a) s) rows) (sym same) ∙ d.0 in
        let rest = update_where-none (λ a. str_eq (id a) k) f rows gone in
        let clear =
          exists_elsewhere (λ a. str_eq (name a) n) (λ a. str_eq (id a) k) rows
            (ground (arith, free)) gone in
        ground (arith, it, rest, clear, named b, e.1)
    | inr other ↦
        let tail = rename-IsDistinct id name k n f rows named d.1 e.1 (ground (arith, free)) in
        let away =
          exists-update_off (λ c. str_eq (name c) (name b)) (λ a. str_eq (id a) k) f rows e.0
            (λ a. ground (arith, named a, free, str_eq_iff n (name b), str_eq_iff (name b) n)) in
        ground (arith, other, tail, away)
  ]
