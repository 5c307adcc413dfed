-- ===== src/Containers/Calls.antt =====
-- Calls of the operations of src/container.cpp, on any of the containers inside an outermost one.
use zenonia.Base.Int.{ℤ}
use zenonia.Base.{ℕ, List, [], ◌∷◌}
use zenonia.Containers.{
  ItemType, Item, item_at, add_thing, add_item_back, internal_add_thing, update_thing,
  replace_thing, remove_thing, on_container,
}
use zenonia.Containers.Weights.{IsWeighed}

-- The calls of the operations of containers, each with the path of the container that it is called on.
pub data Call : Type 0 where
  call_add_thing : ℤ → Item → Call
  call_add_item_back call_internal_add_thing : Item → Call
  call_update_thing : ℕ → ℕ → ℕ → Call
  call_replace_thing : ℕ → Item → Call
  call_remove_thing : ℕ → ℕ → Call

module _ (types : ℕ → ItemType) where
  abbrev pub apply : Call → List ℕ → Item → Item
  apply (call_add_thing index i) p root = add_thing types index i p root
  apply (call_add_item_back i) p root =
      on_container (λ b items. add_item_back types i p root) (item_at p root) root
  apply (call_internal_add_thing i) p root =
      on_container (λ b items. internal_add_thing types i p root) (item_at p root) root
  apply (call_update_thing address id amount) p root = update_thing types address id amount p root
  apply (call_replace_thing n i) p root = replace_thing types n i p root
  apply (call_remove_thing address amount) p root = remove_thing types address amount p root

  abbrev pub run : List (List ℕ × Call) → Item → Item
  run [] root = root
  run ((p, c) ∷ cs) root = run cs (apply c p root)

  -- What is added has right weights itself.
  abbrev pub AddsWeighed : Call → Type 0
  AddsWeighed (call_add_thing index i) = IsWeighed types i
  AddsWeighed (call_add_item_back i) = IsWeighed types i
  AddsWeighed (call_internal_add_thing i) = IsWeighed types i
  AddsWeighed (call_update_thing address id amount) = Unit
  AddsWeighed (call_replace_thing n i) = IsWeighed types i
  AddsWeighed (call_remove_thing address amount) = Unit
