-- ===== src/Otb/Loader/Frames.antt =====
-- Where the nodes and the frames of the stack of `parseTree` of src/fileloader.cpp lie in the file.
use zenonia.Base.{
  ℕ, ◌+◌, ◌≤◌, ◌≡◌, true, false, Option, none, some, List, [], ◌∷◌, arith, Bool-cases, inl, inr,
  ◌⊎◌,
}
use zenonia.Otb.Loader.{
  Node, Nodes, node, nil, cons, snoc, is_nil, Frame, Mode, Parser, end_props, adopt, to_node,
}

-- The properties of a node have an end, which lies behind their begin and within the file.
abbrev pub Ends : ℕ → ℕ → Option ℕ → Type 0
Ends size from none = ⊥
Ends size from (some to) = (from ≤ to) × (to ≤ size)

abbrev mutual
  pub WithinFile : ℕ → Node → Type 0
  WithinFile size (node type from to children) = Ends size from to × AllWithinFile size children

  pub AllWithinFile : ℕ → Nodes → Type 0
  AllWithinFile size nil = Unit
  AllWithinFile size (cons n ns) = WithinFile size n × AllWithinFile size ns

-- A frame at an offset: its end is set once it has a child.
abbrev FrameIsFine : ℕ → ℕ → Frame → Type 0
FrameIsFine size it f =
    (f.props_begin ≤ it)
    × ((is_nil f.children ≡ true) ⊎ Ends size f.props_begin f.props_end)
    × AllWithinFile size f.children

-- The frames below the top have a child that is open.
abbrev BelowFrame : ℕ → ℕ → Frame → Type 0
BelowFrame size it f =
    (f.props_begin ≤ it) × Ends size f.props_begin f.props_end × AllWithinFile size f.children

abbrev pub BelowIsFine : ℕ → ℕ → List Frame → Type 0
BelowIsFine size it [] = Unit
BelowIsFine size it (f ∷ stack) = BelowFrame size it f × BelowIsFine size it stack

abbrev pub RootIsFine : ℕ → Option Node → Type 0
RootIsFine size none = Unit
RootIsFine size (some n) = WithinFile size n

abbrev pub StackIsFine : ℕ → ℕ → Mode → List Frame → Type 0
StackIsFine size it Mode.type_byte stack = BelowIsFine size it stack
StackIsFine size it Mode.scanning [] = Unit
StackIsFine size it Mode.scanning (f ∷ stack) = FrameIsFine size it f × BelowIsFine size it stack
StackIsFine size it Mode.escaped [] = Unit
StackIsFine size it Mode.escaped (f ∷ stack) = FrameIsFine size it f × BelowIsFine size it stack

abbrev pub IsFine : ℕ → ℕ → Parser → Type 0
IsFine size it p = StackIsFine size it p.mode p.stack × RootIsFine size p.root

AllWithinFile-snoc :
    (size : ℕ) (ns : Nodes) (n : Node)
    → AllWithinFile size ns
    → WithinFile size n
    → AllWithinFile size (snoc ns n)
unfolding snoc
AllWithinFile-snoc size nil n hs h = (h, tt)
AllWithinFile-snoc size (cons c cs) n hs h = (hs.0, AllWithinFile-snoc size cs n hs.1 h)

pub end_props_lem :
    (size it : ℕ) (f : Frame)
    → it ≤ size
    → FrameIsFine size it f
    → BelowFrame size it (end_props it f)
unfolding end_props
end_props_lem size it f b (h, e, c) = elim (Bool-cases (is_nil f.children)) [
  | inl empty ↦ rw empty (h, (h, b), c)
  | inr full ↦ rw full (h, ends full e, c)
]
  where
    ends :
        is_nil f.children ≡ false
        → (is_nil f.children ≡ true) ⊎ Ends size f.props_begin f.props_end
        → Ends size f.props_begin f.props_end
    ends full (inl empty) = ground (arith, empty, full)
    ends full (inr e) = e

pub to_node_lem : (size it : ℕ) (f : Frame) → BelowFrame size it f → WithinFile size (to_node f)
to_node_lem size it f h = (h.1, h.2)

pub adopt_lem :
    (size it : ℕ) (n : Node) (f : Frame)
    → WithinFile size n
    → BelowFrame size it f
    → FrameIsFine size (it + 1) (adopt n f)
unfolding adopt
adopt_lem size it n f w (h, e, c) =
    (omega (arith, h), inr e, AllWithinFile-snoc size f.children n c w)

FrameIsFine-suc : (size it : ℕ) (f : Frame) → FrameIsFine size it f → FrameIsFine size (it + 1) f
FrameIsFine-suc size it f (h, e, c) = (omega (arith, h), e, c)

pub BelowIsFine-suc :
    (size it : ℕ) (stack : List Frame) → BelowIsFine size it stack → BelowIsFine size (it + 1) stack
BelowIsFine-suc size it [] h = tt
BelowIsFine-suc size it (f ∷ stack) ((h, e, c), hs) =
    ((omega (arith, h), e, c), BelowIsFine-suc size it stack hs)

pub StackIsFine-suc :
    (size it : ℕ) (stack : List Frame)
    → StackIsFine size it Mode.scanning stack
    → StackIsFine size (it + 1) Mode.scanning stack × StackIsFine size (it + 1) Mode.escaped stack
StackIsFine-suc size it [] h = (tt, tt)
StackIsFine-suc size it (f ∷ stack) (h, hs) =
    let fine : FrameIsFine size (it + 1) f × BelowIsFine size (it + 1) stack =
      (FrameIsFine-suc size it f h, BelowIsFine-suc size it stack hs) in
    (fine, fine)

pub escaped_lem :
    (size it : ℕ) (stack : List Frame)
    → StackIsFine size it Mode.escaped stack
    → StackIsFine size it Mode.scanning stack
escaped_lem size it [] h = tt
escaped_lem size it (f ∷ stack) h = h
