-- ===== src/Tiles/Growth.antt =====
-- `createLeaf` of src/map.cpp adds one leaf and keeps the others.
use zenonia.Base.{
  ℕ, zero, suc, ◌≡◌, ◌≢◌, refl, Bool, true, false, not, ◌&&◌, Option, none, some, if◌then◌else◌,
  arith, Bool-cases, inl, inr,
}
use zenonia.Tiles.{
  Tree, absent, branch, leaf, top_bit, double, get_leaf, plant, create_leaf, no_children,
}

-- All leaves are below `n` nodes.
abbrev pub IsDeep : ℕ → Tree → Type 0
IsDeep n absent = Unit
IsDeep zero (branch a b c d) = ⊥
IsDeep (suc n) (branch a b c d) = IsDeep n a × IsDeep n b × IsDeep n c × IsDeep n d
IsDeep zero (leaf i) = Unit
IsDeep (suc n) (leaf i) = ⊥

-- Do the leading bits of two numbers agree?
abbrev pub same_bit : Bool → Bool → Bool
same_bit true b = b
same_bit false b = not b

unfoldable pub same_bits : ℕ → ℕ → ℕ → Bool
same_bits zero x x' = true
same_bits (suc n) x x' = same_bit (top_bit x) (top_bit x') && same_bits n (double x) (double x')

abbrev pub or_else : Option ℕ → ℕ → ℕ
or_else none id = id
or_else (some i) id = i

get_leaf-no_children : (x y : ℕ) → get_leaf x y no_children ≡ none
unfolding get_leaf
get_leaf-no_children x y = ground arith

module _ (id : ℕ) where
  -- What is found in `t'` after a leaf is made there: `t'` is `t`, or the node made for one that is missing.
  abbrev MadeIn : ℕ → Tree → Tree → Type 0
  MadeIn n t t' =
      (x y x' y' : ℕ)
      → get_leaf x' y' (create_leaf (suc (suc n)) id x y t') ≡ (
          if same_bits n x x' && same_bits n y y'
          then some (or_else (get_leaf x y t) id)
          else get_leaf x' y' t)

  plant_missing : (n : ℕ) → plant (suc (suc (suc (suc n)))) id absent ≡ no_children
  unfolding plant
  plant_missing n = ground arith

  made-child :
      (n : ℕ)
      → ((t : Tree) → IsDeep n t → t ≢ absent → MadeIn n t t)
      → (t : Tree) → IsDeep n t
      → MadeIn n t (plant (suc (suc (suc n))) id t)
  unfolding plant same_bits create_leaf get_leaf
  made-child zero node absent h x y x' y' = refl
  made-child (suc n) node absent h x y x' y' = rw (plant_missing n) (
      ground (
        arith,
        node no_children (tt, tt, tt, tt) (λ e. cc) x y x' y',
        get_leaf-no_children x y,
        get_leaf-no_children x' y',
      ))
  made-child n node (leaf i) h x y x' y' = node (leaf i) h (λ e. cc) x y x' y'
  made-child n node (branch a b c d) h x y x' y' = node (branch a b c d) h (λ e. cc) x y x' y'

  pub made : (n : ℕ) (t : Tree) → IsDeep n t → t ≢ absent → MadeIn n t t
  unfolding get_leaf create_leaf same_bits
  made n absent h ne x y x' y' = absurd (ne refl)
  made zero (leaf i) h ne x y x' y' = refl
  made zero (branch a b c d) h ne x y x' y' = elim h [ ]
  made (suc n) (leaf i) h ne x y x' y' = elim h [ ]
  made (suc n) (branch a b c d) (ha, hb, hc, hd) ne x y x' y' = ground (
    arith,
    made-child n (made n) a ha (double x) (double y) (double x') (double y'),
    made-child n (made n) b hb (double x) (double y) (double x') (double y'),
    made-child n (made n) c hc (double x) (double y) (double x') (double y'),
    made-child n (made n) d hd (double x) (double y) (double x') (double y'),
  )

  child-IsDeep :
      (n : ℕ)
      → ((x y : ℕ) (t : Tree) → IsDeep n t → IsDeep n (create_leaf (suc (suc n)) id x y t))
      → (x y : ℕ) (t : Tree) → IsDeep n t
      → IsDeep n (create_leaf (suc (suc n)) id x y (plant (suc (suc (suc n))) id t))
  unfolding plant create_leaf
  child-IsDeep zero node x y absent h = tt
  child-IsDeep (suc n) node x y absent h =
      rw (plant_missing n) (node x y no_children (tt, tt, tt, tt))
  child-IsDeep n node x y (leaf i) h = node x y (leaf i) h
  child-IsDeep n node x y (branch a b c d) h = node x y (branch a b c d) h

  pub create_leaf-IsDeep :
      (n x y : ℕ) (t : Tree) → IsDeep n t → IsDeep n (create_leaf (suc (suc n)) id x y t)
  unfolding create_leaf
  create_leaf-IsDeep n x y absent h = tt
  create_leaf-IsDeep zero x y (leaf i) h = tt
  create_leaf-IsDeep zero x y (branch a b c d) h = elim h [ ]
  create_leaf-IsDeep (suc n) x y (leaf i) h = elim h [ ]
  create_leaf-IsDeep (suc n) x y (branch a b c d) (ha, hb, hc, hd) =
      let grows = child-IsDeep n (create_leaf-IsDeep n) (double x) (double y) in
      elim (Bool-cases (top_bit y)) [
        | inl south ↦
            rw (south, create_leaf)
              (elim (Bool-cases (top_bit x)) [
                | inl east ↦ rw east (ha, hb, hc, grows d hd)
                | inr west ↦ rw west (ha, hb, grows c hc, hd)
              ])
        | inr north ↦
            rw (north, create_leaf)
              (elim (Bool-cases (top_bit x)) [
                | inl east ↦ rw east (ha, grows b hb, hc, hd)
                | inr west ↦ rw west (grows a ha, hb, hc, hd)
              ])
      ]

-- The leaf of a position is that of its square.
pub get_leaf-square :
    (n x y x' y' : ℕ) (t : Tree)
    → IsDeep n t
    → (same_bits n x x' && same_bits n y y') ≡ true
    → get_leaf x' y' t ≡ get_leaf x y t
unfolding get_leaf same_bits
get_leaf-square n x y x' y' absent h e = refl
get_leaf-square zero x y x' y' (leaf i) h e = refl
get_leaf-square zero x y x' y' (branch a b c d) h e = elim h [ ]
get_leaf-square (suc n) x y x' y' (leaf i) h e = elim h [ ]
get_leaf-square (suc n) x y x' y' (branch a b c d) (ha, hb, hc, hd) e = ground (
  arith,
  e,
  get_leaf-square n (double x) (double y) (double x') (double y') a ha,
  get_leaf-square n (double x) (double y) (double x') (double y') b hb,
  get_leaf-square n (double x) (double y) (double x') (double y') c hc,
  get_leaf-square n (double x) (double y) (double x') (double y') d hd,
)
