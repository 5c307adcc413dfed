-- ===== src/Containers/Upkeep.antt =====
-- The operations of src/container.cpp keep the weights of all containers right.
use zenonia.Base.{
  ℕ, ◌+◌, ◌%◌, ◌^◌, ◌≡◌, refl, Option, none, some, List, arith, Option-cases, inl, inr, ◌==◌,
  Bool-cases,
}
use zenonia.Containers.{
  ItemType, Thing, Box, Item, plain, container, Items, item, thing_of, push_back, get_item_by_index,
  erase, change_at, item_at, get_weight, changed, negated, with_count, with_type, get_thing_index,
  add_thing, add_item_back, internal_add_thing, update_thing, replace_thing, remove_thing,
  take_from, left_of, on_container, found_at, is_past,
}
use zenonia.Containers.Weights.{
  content_weight, IsWeighed, AreWeighed, get_weight-lt, content_weight-lt, content_weight-push_back,
  AreWeighed-push_back, AreWeighed-get, content_weight-erase, AreWeighed-erase,
  content_weight-change_at, AreWeighed-change_at, changed-IsWeighed, item_at-IsWeighed,
}
use zenonia.Containers.Calls.{
  Call, call_add_thing, call_add_item_back, call_internal_add_thing, call_update_thing,
  call_replace_thing, call_remove_thing, apply, AddsWeighed,
}

module _ (types : ℕ → ItemType) where
  IsWeighed-with_count : (n : ℕ) (i : Item) → IsWeighed types i → IsWeighed types (with_count n i)
  unfolding IsWeighed
  IsWeighed-with_count n (plain t) h = tt
  IsWeighed-with_count n (container t b total items) h = h

  IsWeighed-with_type :
      (id amount : ℕ) (i : Item) → IsWeighed types i → IsWeighed types (with_type types id amount i)
  unfolding IsWeighed
  IsWeighed-with_type id amount (plain t) h = tt
  IsWeighed-with_type id amount (container t b total items) h = h

  module _ (p : List ℕ) (root : Item) (h : IsWeighed types root) where
    -- A case split on what is at the path.
    on_container-IsWeighed :
        (o : Option Item) (act : Box → Items → Item)
        → ((t : Thing) (b : Box) (total : ℕ) (items : Items)
            → o ≡ some (container t b total items)
            → IsWeighed types (act b items))
        → IsWeighed types (on_container act o root)
    on_container-IsWeighed none act k = h
    on_container-IsWeighed (some (plain t)) act k = h
    on_container-IsWeighed (some (container t b total items)) act k = k t b total items refl

    found_at-IsWeighed :
        (o : Option ℕ) (items : Items) (act : ℕ → Item → Item)
        → ((n : ℕ) (old : Item)
            → get_item_by_index n items ≡ some old
            → IsWeighed types (act n old))
        → IsWeighed types (found_at o items act root)
    found_at-IsWeighed none items act k = h
    found_at-IsWeighed (some n) items act k = elim (Option-cases (get_item_by_index n items)) [
      | inl missing ↦ rw (missing, found_at) h
      | inr (old, found) ↦ rw (found, found_at) (k n old found)
    ]

    module _ (t : Thing) (b : Box) (total : ℕ) (items : Items)
        (here : item_at p root ≡ some (container t b total items)) where
      items-AreWeighed : AreWeighed types items
      unfolding IsWeighed
      items-AreWeighed = (item_at-IsWeighed types p root (container t b total items) here h).1

      back-IsWeighed :
          (i : Item) → IsWeighed types i → IsWeighed types (add_item_back types i p root)
      back-IsWeighed i hi =
          (changed-IsWeighed types (push_back i) (get_weight types i) p root t b total items here h
            (AreWeighed-push_back types i items hi items-AreWeighed)
            (content_weight-push_back types i items)).0

      front-IsWeighed :
          (i : Item) → IsWeighed types i → IsWeighed types (internal_add_thing types i p root)
      unfolding IsWeighed content_weight
      front-IsWeighed i hi =
          (changed-IsWeighed types (item i) (get_weight types i) p root t b total items here h
            (hi, items-AreWeighed) (omega arith)).0

      -- Another item at an index.
      other-IsWeighed :
          (f : Item → Item) (n : ℕ) (old : Item)
          → get_item_by_index n items ≡ some old
          → IsWeighed types (f old)
          → IsWeighed types (
              changed
                (change_at n f)
                ((negated (get_weight types old) + get_weight types (f old)) % 2 ^ 32)
                p
                root)
      other-IsWeighed f n old found hf =
          (changed-IsWeighed types (change_at n f) _ p root t b total items here h
            (AreWeighed-change_at types n f items old found hf items-AreWeighed)
            (omega (
              arith,
              content_weight-change_at types n f items old found,
              get_weight-lt types old,
              content_weight-lt types items,
              content_weight-lt types (change_at n f items),
            ))).0

      gone-IsWeighed :
          (n : ℕ) (old : Item)
          → get_item_by_index n items ≡ some old
          → IsWeighed types (changed (erase n) (negated (get_weight types old)) p root)
      gone-IsWeighed n old found =
          (changed-IsWeighed types (erase n) _ p root t b total items here h
            (AreWeighed-erase types n items items-AreWeighed)
            (omega (
              arith,
              content_weight-erase types n items old found,
              get_weight-lt types old,
              content_weight-lt types (erase n items),
            ))).0

      take_from-IsWeighed :
          (amount n : ℕ) (old : Item)
          → get_item_by_index n items ≡ some old
          → IsWeighed types (take_from types n amount old p root)
      take_from-IsWeighed amount n old found =
          let left = left_of (thing_of old).count amount in
          let counted = other-IsWeighed (with_count left) n old found (
            IsWeighed-with_count left old
              (AreWeighed-get types n items old found items-AreWeighed)) in
          elim (Bool-cases (types (thing_of old).id).stackable) [
            | inl stacks ↦ rw stacks (elim (Bool-cases (amount == (thing_of old).count)) [
              | inl all ↦ rw all (gone-IsWeighed n old found)
              | inr part ↦ rw part counted
            ])
            | inr single ↦ rw single (gone-IsWeighed n old found)
          ]

    -- One call.
    pub apply-IsWeighed : (c : Call) → AddsWeighed types c → IsWeighed types (apply types c p root)
    unfolding add_thing update_thing replace_thing remove_thing
    apply-IsWeighed (call_add_thing index i) hi =
        on_container-IsWeighed (item_at p root) _ λ t b total items here.
          elim (Bool-cases (is_past index b.max_size)) [
            | inl past ↦ rw past h
            | inr inside ↦ rw inside (front-IsWeighed t b total items here i hi)
          ]
    apply-IsWeighed (call_add_item_back i) hi =
        on_container-IsWeighed (item_at p root) _
          λ t b total items here. back-IsWeighed t b total items here i hi
    apply-IsWeighed (call_internal_add_thing i) hi =
        on_container-IsWeighed (item_at p root) _
          λ t b total items here. front-IsWeighed t b total items here i hi
    apply-IsWeighed (call_update_thing address id amount) hi =
        on_container-IsWeighed (item_at p root) _ λ t b total items here.
          found_at-IsWeighed (get_thing_index address items) items _ λ n old found.
            other-IsWeighed t b total items here (with_type types id amount) n old found (
              IsWeighed-with_type id amount old
                (AreWeighed-get types n items old found (items-AreWeighed t b total items here)))
    apply-IsWeighed (call_replace_thing n i) hi =
        on_container-IsWeighed (item_at p root) _ λ t b total items here.
          found_at-IsWeighed (some n) items _
            λ n old found. other-IsWeighed t b total items here (λ j. i) n old found hi
    apply-IsWeighed (call_remove_thing address amount) hi =
        on_container-IsWeighed (item_at p root) _ λ t b total items here.
          found_at-IsWeighed (get_thing_index address items) items _
            λ n old found. take_from-IsWeighed t b total items here amount n old found
