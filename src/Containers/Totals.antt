-- ===== src/Containers/Totals.antt =====
-- The weight of a container of src/container.cpp after any calls of its operations.
use zenonia.Base.{ℕ, ◌+◌, ◌%◌, ◌^◌, ◌≡◌, List, [], ◌∷◌, arith, All}
use zenonia.Containers.{
  ItemType, Item, plain, container, Items, no_items, item, get_weight, thing_weight,
}
use zenonia.Containers.Weights.{content_weight, IsWeighed, AreWeighed}
use zenonia.Containers.Calls.{Call, apply, run, AddsWeighed}
use zenonia.Containers.Upkeep.{apply-IsWeighed}

module _ (types : ℕ → ItemType) where
  run-IsWeighed :
      (cs : List (List ℕ × Call))
      → All (λ (c : List ℕ × Call). AddsWeighed types c.1) cs
      → (root : Item) → IsWeighed types root
      → IsWeighed types (run types cs root)
  run-IsWeighed [] hs root h = h
  run-IsWeighed ((p, c) ∷ cs) hs root h =
      run-IsWeighed cs hs.1 (apply types c p root) (apply-IsWeighed types p root h c hs.0)

  -- All weights in an item, each thing by itself.
  unfoldable mutual
    pub own_weights : Item → ℕ
    own_weights (plain t) = thing_weight types t
    own_weights (container t b total items) = thing_weight types t + own_weights_of items

    pub own_weights_of : Items → ℕ
    own_weights_of no_items = 0
    own_weights_of (item i is) = own_weights i + own_weights_of is

  mutual
    unfolding own_weights IsWeighed get_weight content_weight thing_weight

    get_weight-own_weights :
        (i : Item) → IsWeighed types i → get_weight types i ≡ own_weights i % 2 ^ 32
    get_weight-own_weights (plain t) h = ground arith
    get_weight-own_weights (container t b total items) h =
        omega (arith, h.0, content_weight-own_weights items h.1)

    content_weight-own_weights :
        (is : Items) → AreWeighed types is → content_weight types is ≡ own_weights_of is % 2 ^ 32
    content_weight-own_weights no_items h = omega arith
    content_weight-own_weights (item i is) h =
        omega (arith, get_weight-own_weights i h.0, content_weight-own_weights is h.1)

  -- After any calls of the operations of containers, of the outermost one and of those in it, with
  -- items added that have right weights, the weight of the outermost one is that of all things in it,
  -- in 32 bits.
  pub get_weight-run :
      (cs : List (List ℕ × Call)) (root : Item)
      → All (λ (c : List ℕ × Call). AddsWeighed types c.1) cs
      → IsWeighed types root
      → get_weight types (run types cs root) ≡ own_weights (run types cs root) % 2 ^ 32
  get_weight-run cs root hs h =
      get_weight-own_weights (run types cs root) (run-IsWeighed cs hs root h)
