-- ===== src/Prelude/Order.antt =====
-- `ORDER BY` on a numeric column: a stable insertion sort.
use Prim.Native.Nat.{ℕ, zero, suc, ◌<◌}
use mathlib.Core.Path.{◌≡◌, refl}
use mathlib.Core.Bool.{Bool}
use mathlib.Core.Logic.{inl, inr}
use mathlib.Core.List.{List, [], ◌∷◌, ◌++◌}
use native.Mathlib.Omega.{arith}
use realm_guard_server.Prelude.Tests.{leb, if◌then◌else◌, Bool-cases}
use realm_guard_server.Prelude.Lists.{All, All-append, All-filter, All-take, filter, take}

module _ {A : Type 0} (column : A → ℕ) where
  pub insert_by : A → List A → List A
  insert_by x [] = x ∷ []
  insert_by x (y ∷ ys) = if leb (column x) (column y) then x ∷ y ∷ ys else y ∷ insert_by x ys

  unfoldable pub order_by : List A → List A
  unfolding insert_by
  order_by [] = []
  order_by (x ∷ xs) = insert_by x (order_by xs)

  -- Strictly ascending, each value below all that follow.
  abbrev pub IsAscending : List A → Type 0
  IsAscending [] = Unit
  IsAscending (x ∷ xs) = All (λ y. column x < column y) xs × IsAscending xs

  insert_by-of_below :
      (x : A) (ys : List A) → All (λ y. column x < column y) ys → insert_by x ys ≡ x ∷ ys
  unfolding insert_by
  insert_by-of_below x [] h = refl
  insert_by-of_below x (y ∷ ys) h = ground (arith, h.0)

  -- A table that is in order already is left as it is.
  pub order_by-of_IsAscending : (xs : List A) → IsAscending xs → order_by xs ≡ xs
  unfolding order_by
  order_by-of_IsAscending [] h = refl
  order_by-of_IsAscending (x ∷ xs) h =
      rw (order_by-of_IsAscending xs h.1) (insert_by-of_below x xs h.0)

  module _ (P : A → Type 0) where
    insert_by-All : (x : A) (ys : List A) → P x → All P ys → All P (insert_by x ys)
    unfolding insert_by
    insert_by-All x [] p h = (p, tt)
    insert_by-All x (y ∷ ys) p h = elim (Bool-cases (leb (column x) (column y))) [
      | inl e ↦ rw e (p, h)
      | inr e ↦ rw e (h.0, insert_by-All x ys p h.1)
    ]

    -- Sorting keeps what holds of every row.
    pub order_by-All : (xs : List A) → All P xs → All P (order_by xs)
    unfolding order_by
    order_by-All [] h = tt
    order_by-All (x ∷ xs) h = insert_by-All x (order_by xs) h.0 (order_by-All xs h.1)

  pub IsAscending-append_last :
      (xs : List A) (x : A)
      → IsAscending xs
      → All (λ y. column y < column x) xs
      → IsAscending (xs ++ x ∷ [])
  IsAscending-append_last [] x h k = (tt, tt)
  IsAscending-append_last (y ∷ ys) x h k = (
    All-append (λ z. column y < column z) ys (x ∷ []) h.0 (k.0, tt),
    IsAscending-append_last ys x h.1 k.1,
  )

  pub IsAscending-filter : (p : A → Bool) (xs : List A) → IsAscending xs → IsAscending (filter p xs)
  IsAscending-filter p [] h = tt
  IsAscending-filter p (x ∷ xs) h = elim (Bool-cases (p x)) [
    | inl e ↦ rw e (All-filter (λ y. column x < column y) p xs h.0, IsAscending-filter p xs h.1)
    | inr e ↦ rw e (IsAscending-filter p xs h.1)
  ]

  pub IsAscending-take : (n : ℕ) (xs : List A) → IsAscending xs → IsAscending (take n xs)
  IsAscending-take zero xs h = tt
  IsAscending-take (suc n) [] h = tt
  IsAscending-take (suc n) (x ∷ xs) h =
      (All-take (λ y. column x < column y) n xs h.0, IsAscending-take n xs h.1)
