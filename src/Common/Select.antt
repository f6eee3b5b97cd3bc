-- ===== src/Common/Select.antt =====
-- The statements of SQL on the rows of any table: SELECT, UPDATE and COUNT with a condition, and ORDER BY.
-- A DELETE keeps the rows that its condition does not hold of.
use go_dark_web_crawler.Common.{
  zero, suc, sym, length, Option-cases, ℕ, ◌+◌, ◌≤◌, ◌≡◌, refl, Bool, true, false, not, Option,
  none, some, List, [], ◌∷◌, ◌++◌, arith, All, keep, Bool-cases, if◌then◌else◌, inl, inr,
}

module _ {ℓ} {A : Type ℓ} where
  -- `UPDATE ... SET ... WHERE ...`.
  unfoldable pub update_rows : (A → Bool) → (A → A) → List A → List A
  update_rows p f [] = []
  update_rows p f (r ∷ rs) = (if p r then f r else r) ∷ update_rows p f rs

  -- `SELECT COUNT(*) ... WHERE ...`.
  unfoldable pub count_rows : (A → Bool) → List A → ℕ
  count_rows p [] = 0
  count_rows p (r ∷ rs) = (if p r then 1 else 0) + count_rows p rs

  -- `SELECT ... WHERE ...` for at most one row.
  unfoldable pub first_row : (A → Bool) → List A → Option A
  first_row p [] = none
  first_row p (r ∷ rs) = if p r then some r else first_row p rs

  -- `DELETE ... WHERE ...`.
  unfoldable pub delete_rows : (A → Bool) → List A → List A
  delete_rows p rs = keep (λ r. not (p r)) rs

  -- `ORDER BY`, by insertion: `before r q` says that r, which came first, stays before q.
  unfoldable pub insert_by : (A → A → Bool) → A → List A → List A
  insert_by before r [] = r ∷ []
  insert_by before r (q ∷ qs) =
      let rest = insert_by before r qs in if before r q then r ∷ q ∷ qs else q ∷ rest

  unfoldable pub order_by : (A → A → Bool) → List A → List A
  order_by before [] = []
  order_by before (r ∷ rs) = insert_by before r (order_by before rs)

  -- The row at a place, and the others.
  unfoldable pub take_out : ℕ → List A → Option (A × List A)
  take_out place [] = none
  take_out zero (r ∷ rs) = some (r, rs)
  take_out (suc place) (r ∷ rs) = elim (take_out place rs) [
    | none ↦ none
    | some (x, rest) ↦ some (x, r ∷ rest)
  ]

  pub count_rows-append :
      (p : A → Bool) (xs ys : List A) → count_rows p (xs ++ ys) ≡ count_rows p xs + count_rows p ys
  unfolding count_rows
  count_rows-append p [] ys = omega arith
  count_rows-append p (x ∷ xs) ys = ground (arith, count_rows-append p xs ys)

  pub keep-append : (p : A → Bool) (xs ys : List A) → keep p (xs ++ ys) ≡ keep p xs ++ keep p ys
  unfolding keep
  keep-append p [] ys = refl
  keep-append p (x ∷ xs) ys = ground (arith, keep-append p xs ys)

  -- An update that only rewrites rows outside the selection, and does not bring any in, is not seen.
  pub keep-update_rows_out :
      (p q : A → Bool) (f : A → A) (xs : List A)
      → ((r : A) → q r ≡ true → (p r ≡ false) × (p (f r) ≡ false))
      → keep p (update_rows q f xs) ≡ keep p xs
  unfolding keep update_rows
  keep-update_rows_out p q f [] k = refl
  keep-update_rows_out p q f (x ∷ xs) k = ground (arith, keep-update_rows_out p q f xs k, k x)

  -- Nor is the deletion of rows outside the selection.
  pub keep-keep_out :
      (p q : A → Bool) (xs : List A)
      → ((r : A) → p r ≡ true → q r ≡ true)
      → keep p (keep q xs) ≡ keep p xs
  unfolding keep
  keep-keep_out p q [] k = refl
  keep-keep_out p q (x ∷ xs) k = ground (arith, keep-keep_out p q xs k, k x)

  pub first_row-update_rows :
      (p q : A → Bool) (f : A → A) (xs : List A)
      → ((r : A) → p (f r) ≡ p r)
      → first_row p (update_rows q f xs)
        ≡ elim (first_row p xs) [ none ↦ none | some r ↦ some (if q r then f r else r) ]
  unfolding first_row update_rows
  first_row-update_rows p q f [] k = refl
  first_row-update_rows p q f (x ∷ xs) k = ground (arith, first_row-update_rows p q f xs k, k x)

  pub first_row-holds : (p : A → Bool) (xs : List A) (r : A) → first_row p xs ≡ some r → p r ≡ true
  unfolding first_row
  first_row-holds p [] r e = cc
  first_row-holds p (x ∷ xs) r e = ground (arith, first_row-holds p xs r)

  pub count_rows-update_rows :
      (p q : A → Bool) (f : A → A) (xs : List A)
      → ((r : A) → p (f r) ≡ p r)
      → count_rows p (update_rows q f xs) ≡ count_rows p xs
  unfolding count_rows update_rows
  count_rows-update_rows p q f [] k = refl
  count_rows-update_rows p q f (x ∷ xs) k = ground (arith, count_rows-update_rows p q f xs k, k x)

  pub count_rows-keep-le :
      (p q : A → Bool) (xs : List A) → count_rows p (keep q xs) ≤ count_rows p xs
  unfolding count_rows keep
  count_rows-keep-le p q [] = omega arith
  count_rows-keep-le p q (x ∷ xs) = ground (arith, count_rows-keep-le p q xs)

  -- A search inside a selection that holds all it may find.
  pub first_row-keep :
      (p q : A → Bool) (xs : List A)
      → ((r : A) → p r ≡ true → q r ≡ true)
      → first_row p (keep q xs) ≡ first_row p xs
  unfolding first_row keep
  first_row-keep p q [] k = refl
  first_row-keep p q (x ∷ xs) k = ground (arith, first_row-keep p q xs k, k x)

  pub count_rows-keep :
      (p q : A → Bool) (xs : List A)
      → ((r : A) → p r ≡ true → q r ≡ true)
      → count_rows p (keep q xs) ≡ count_rows p xs
  unfolding count_rows keep
  count_rows-keep p q [] k = refl
  count_rows-keep p q (x ∷ xs) k = ground (arith, count_rows-keep p q xs k, k x)

  pub keep_ext : (p q : A → Bool) (xs : List A) → ((r : A) → p r ≡ q r) → keep p xs ≡ keep q xs
  unfolding keep
  keep_ext p q [] k = refl
  keep_ext p q (x ∷ xs) k = ground (arith, keep_ext p q xs k, k x)

  pub keep-append_out :
      (p : A → Bool) (xs : List A) (x : A) → p x ≡ false → keep p (xs ++ x ∷ []) ≡ keep p xs
  unfolding keep
  keep-append_out p [] x e = rw e refl
  keep-append_out p (y ∷ xs) x e = ground (arith, keep-append_out p xs x e)

  pub count_rows_mono :
      (p q : A → Bool) (xs : List A)
      → ((r : A) → p r ≡ true → q r ≡ true)
      → count_rows p xs ≤ count_rows q xs
  unfolding count_rows
  count_rows_mono p q [] k = omega arith
  count_rows_mono p q (x ∷ xs) k = ground (arith, count_rows_mono p q xs k, k x)

  All-insert_by {κ} :
      (P : A → Type κ) (before : A → A → Bool) (r : A) (xs : List A)
      → P r
      → All P xs
      → All P (insert_by before r xs)
  unfolding insert_by
  All-insert_by P before r [] p h = (p, tt)
  All-insert_by P before r (x ∷ xs) p h = elim (Bool-cases (before r x)) [
    | inl e ↦ rw e (p, h)
    | inr e ↦ rw e (h.0, All-insert_by P before r xs p h.1)
  ]

  pub All-order_by {κ} :
      (P : A → Type κ) (before : A → A → Bool) (xs : List A) → All P xs → All P (order_by before xs)
  unfolding order_by
  All-order_by P before [] h = tt
  All-order_by P before (x ∷ xs) h =
      All-insert_by P before x (order_by before xs) h.0 (All-order_by P before xs h.1)

  pub count_rows-le-length : (p : A → Bool) (rs : List A) → count_rows p rs ≤ length rs
  unfolding count_rows
  count_rows-le-length p [] = omega arith
  count_rows-le-length p (r ∷ rs) = ground (arith, count_rows-le-length p rs)

  taken_now :
      (r x : A) (rs rest : List A)
      → ◌≡◌ {A = Option (A × List A)} (some (r, rs)) (some (x, rest))
      → (r ≡ x) × (rs ≡ rest)
  taken_now r x rs rest e = (cc e, cc e)

  pub take_out-count :
      (p : A → Bool) (place : ℕ) (rs : List A) (x : A) (rest : List A)
      → take_out place rs ≡ some (x, rest)
      → count_rows p rs ≡ (if p x then 1 else 0) + count_rows p rest
  unfolding take_out count_rows
  take_out-count p place [] x rest e = absurd (cc e)
  take_out-count p zero (r ∷ rs) x rest e =
      let (first, others) = taken_now r x rs rest e in rw (first, others) refl
  take_out-count p (suc place) (r ∷ rs) x rest e = elim (Option-cases (take_out place rs)) [
    | inl f ↦ absurd (cc (rw (f, take_out) at e))
    | inr ((y, left), f) ↦
        let (first, others) = taken_now y x (r ∷ left) rest (rw (f, take_out) at e) in
        let behind = take_out-count p place rs y left f in
        rw (sym first, sym others) (omega (arith, behind))
  ]
