-- ===== src/Extern/BTree.antt =====
-- `github.com/google/btree`, as the books of the matching engine use it: an ordered set under the
-- `Less` of its items. `items` is the listing from the least item on. The laws are the documented
-- behaviour, and hold where `Less` orders the items of the tree and the item at hand.
pub mod Ends
use ccoms.Prelude.{
  ℕ, ◌≡◌, ◌⊎◌, Bool, true, false, not, Option, none, some, List, [], ◌∷◌, length, All,
  if◌then◌else◌,
}

abbrev pub first : {A : Type 0} → List A → Option A
first [] = none
first (a ∷ l) = some a

abbrev pub last : {A : Type 0} → List A → Option A
last [] = none
last (a ∷ []) = some a
last (a ∷ b ∷ l) = last (b ∷ l)

module _ {A : Type 0} (less : A → A → Bool) where
  -- Each item comes before all that follow it.
  abbrev pub Sorted : List A → Type 0
  Sorted [] = Unit
  Sorted (a ∷ l) = All (λ b. less a b ≡ true) l × Sorted l

  -- The item `a` has one place in the list: behind the lesser items, before the greater ones.
  abbrev pub Placed : A → List A → Type 0
  Placed a [] = Unit
  Placed a (b ∷ l) =
      ((less b a ≡ true) × Placed a l) ⊎ ((less b a ≡ false) × All (λ c. less a c ≡ true) l)

  unfoldable pub put : A → List A → List A
  put a [] = a ∷ []
  put a (b ∷ l) = if less b a then b ∷ put a l else (if less a b then a ∷ b ∷ l else a ∷ l)

  unfoldable pub remove : A → List A → List A
  remove a [] = []
  remove a (b ∷ l) = if less b a then b ∷ remove a l else (if less a b then b ∷ l else l)

  unfoldable pub found : A → List A → Bool
  found a [] = false
  found a (b ∷ l) = if less b a then found a l else not (less a b)

pub record BTree (A : Type 0) (less : A → A → Bool) : Type 1 where
  pub Tree : Type 0
  pub new_tree : Tree
  pub replace_or_insert : A → Tree → Tree
  pub delete : A → Tree → Tree
  pub has : A → Tree → Bool
  pub min : Tree → Option A
  pub max : Tree → Option A
  pub len : Tree → ℕ
  pub items : Tree → List A
  pub items-new : items new_tree ≡ []
  pub items-insert :
      (a : A) (t : Tree)
      → Sorted less (items t)
      → Placed less a (items t)
      → items (replace_or_insert a t) ≡ put less a (items t)
  pub items-delete :
      (a : A) (t : Tree)
      → Sorted less (items t)
      → Placed less a (items t)
      → items (delete a t) ≡ remove less a (items t)
  pub has-found :
      (a : A) (t : Tree)
      → Sorted less (items t)
      → Placed less a (items t)
      → has a t ≡ found less a (items t)
  pub min-first : (t : Tree) → min t ≡ first (items t)
  pub max-last : (t : Tree) → max t ≡ last (items t)
  pub len-length : (t : Tree) → len t ≡ length (items t)
