-- ===== src/Database/Claims.antt =====
-- `GetNextPendingNode`: which row a worker claims. The order of the query is a strict weak order, so the
-- claimed row is one that no due row goes before.
pub mod Workers
use go_dark_web_crawler.Common.{
  ℕ, ◌+◌, ◌≡◌, refl, subst, Bool, true, false, not, ◌&&◌, ◌||◌, Option, none, some, List, [], ◌∷◌,
  arith, All, ◌==◌, Bool-cases, Option-cases, if◌then◌else◌, inl, inr, ltb, leb,
}
use go_dark_web_crawler.Common.Text.{Bytes, bytes_eq}
use go_dark_web_crawler.Database.Store.{
  Status, pending, crawling, is, Node, Store, find_row, update_where, has_key, blacklisted,
}
use go_dark_web_crawler.Database.Queue.{
  inflight, rank, is_due, goes_before, first_due, get_next_pending_node,
}
use go_dark_web_crawler.Database.Rows.{find_row-update_where}
use go_dark_web_crawler.Database.Keys.{UniqueKeys, IsStored, UniqueKeys-IsStored}
use go_dark_web_crawler.Database.Refusal.{Refused, is_refused}
use go_dark_web_crawler.Database.Refusal.Steps.{first_due-picked}

-- No due row of the list goes before the row.
unfoldable pub IsFirst : List Node → ℕ → Node → List Node → Type 0
IsFirst all now n ns = All (λ m. is_due now m ≡ true → goes_before all m n ≡ false) ns

before_trans :
    (all : List Node) (a b c : Node)
    → goes_before all a b ≡ false
    → goes_before all b c ≡ false
    → goes_before all a c ≡ false
before_trans all a b c h k = ground arith

IsFirst-trans :
    (all : List Node) (now : ℕ) (a b : Node) (ns : List Node)
    → goes_before all a b ≡ false
    → IsFirst all now a ns
    → IsFirst all now b ns
unfolding IsFirst
IsFirst-trans all now a b [] h f = tt
IsFirst-trans all now a b (n ∷ ns) h f =
    (λ due. before_trans all n a b (f.0 due) h, IsFirst-trans all now a b ns h f.1)

before_asym :
    (all : List Node) (a b : Node) → goes_before all a b ≡ true → goes_before all b a ≡ false
before_asym all a b h = ground arith

before_irreflexive : (all : List Node) (a : Node) → goes_before all a a ≡ false
before_irreflexive all a = ground arith

pub nothing_due :
    (all : List Node) (now : ℕ) (ns : List Node)
    → first_due all now ns ≡ none
    → All (λ m. is_due now m ≡ false) ns
unfolding first_due
nothing_due all now [] e = tt
nothing_due all now (m ∷ ms) e = elim (Bool-cases (is_due now m)) [
  | inr not_due ↦ (not_due, nothing_due all now ms (rw not_due at e))
  | inl due ↦ elim (Option-cases (first_due all now ms)) [
    | inl gone ↦ absurd (cc (rw (due, gone) at e))
    | inr (k, found) ↦ elim (Bool-cases (goes_before all k m)) [
      | inl first ↦ absurd (cc (rw (due, found, first) at e))
      | inr after ↦ absurd (cc (rw (due, found, after) at e))
    ]
  ]
]

IsFirst-nothing_due :
    (all : List Node) (now : ℕ) (n : Node) (ns : List Node)
    → All (λ m. is_due now m ≡ false) ns
    → IsFirst all now n ns
unfolding IsFirst
IsFirst-nothing_due all now n [] h = tt
IsFirst-nothing_due all now n (m ∷ ms) h =
    (λ due. absurd (clash h.0 due), IsFirst-nothing_due all now n ms h.1)
  where
    clash : {b : Bool} → b ≡ false → b ≡ true → ⊥
    clash x y = cc

pub first_due-IsFirst :
    (all : List Node) (now : ℕ) (ns : List Node) (n : Node)
    → first_due all now ns ≡ some n
    → IsFirst all now n ns
unfolding IsFirst first_due
first_due-IsFirst all now [] n e = tt
first_due-IsFirst all now (m ∷ ms) n e = elim (Bool-cases (is_due now m)) [
  | inr not_due ↦ (λ due. absurd (cc), first_due-IsFirst all now ms n (rw not_due at e))
  | inl due ↦ elim (Option-cases (first_due all now ms)) [
    | inl gone ↦
        let here : m ≡ n = cc (rw (due, gone) at e) in
        subst (λ x. IsFirst all now x (m ∷ ms)) here
          (
            λ d. before_irreflexive all m,
            IsFirst-nothing_due all now m ms (nothing_due all now ms gone),
          )
    | inr (k, found) ↦ elim (Bool-cases (goes_before all k m)) [
      | inl first ↦
          let there : k ≡ n = cc (rw (due, found, first) at e) in
          subst (λ x. IsFirst all now x (m ∷ ms)) there
            (λ d. before_asym all k m first, first_due-IsFirst all now ms k found)
      | inr after ↦
          let here : m ≡ n = cc (rw (due, found, after) at e) in
          subst (λ x. IsFirst all now x (m ∷ ms)) here
            (
              λ d. before_irreflexive all m,
              IsFirst-trans all now k m ms after (first_due-IsFirst all now ms k found),
            )
    ]
  ]
]
