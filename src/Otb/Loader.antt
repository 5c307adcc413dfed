-- ===== src/Otb/Loader.antt =====
-- `OTB::Loader` of src/fileloader.cpp and `OTB::Node` of src/fileloader.h. Iterators into the
-- mapped file are offsets; an exception is `none`.
pub mod Encoding
pub mod Reading
pub mod RoundTrip
pub mod Extents
pub mod Frames
use zenonia.Base.{
  same_bytes, ℕ, zero, suc, ◌+◌, ◌-◌, ◌≤◌, Bool, true, false, not, ◌&&◌, ◌||◌, Option, none, some,
  List, [], ◌∷◌, ◌++◌, length, take, drop, get_or, leb, ◌==◌, if◌then◌else◌,
}

abbrev pub escape_char : ℕ
escape_char = 0xFD

abbrev pub start_char : ℕ
start_char = 0xFE

abbrev pub end_char : ℕ
end_char = 0xFF

-- A node has a type, the offset `propsBegin`, the offset `propsEnd`, which is not set while the
-- node has neither a child nor an end, and its children.
mutual
  pub data Node : Type 0 where
    node : ℕ → ℕ → Option ℕ → Nodes → Node

  pub data Nodes : Type 0 where
    nil : Nodes
    cons : Node → Nodes → Nodes

-- `children.emplace_back()`
unfoldable pub snoc : Nodes → Node → Nodes
snoc nil n = cons n nil
snoc (cons c cs) n = cons c (snoc cs n)

abbrev pub is_nil : Nodes → Bool
is_nil nil = true
is_nil (cons c cs) = false

-- A node on the parse stack. It enters its parent's children when it ends: until then the parent is
-- not on top, and nothing looks at its children.
pub record Frame : Type 0 where
  pub type : ℕ
  pub props_begin : ℕ
  pub props_end : Option ℕ
  pub children : Nodes

-- What the next byte is for: the `++it` of the cases `START` and `ESCAPE` takes one more.
pub data Mode : Type 0 where
  scanning type_byte escaped : Mode

pub record Parser : Type 0 where
  pub mode : Mode
  pub stack : List Frame
  pub root : Option Node

infixl 5 ◌>>=◌
abbrev pub ◌>>=◌ {ℓ κ} : {A : Type ℓ} {B : Type κ} → Option A → (A → Option B) → Option B
none >>= f = none
some a >>= f = f a

-- `if (currentNode.children.empty()) currentNode.propsEnd = it;`
unfoldable pub end_props : ℕ → Frame → Frame
end_props it f = if is_nil f.children then record f { props_end = some it } else f

abbrev pub to_node : Frame → Node
to_node f = node f.type f.props_begin f.props_end f.children

unfoldable pub adopt : Node → Frame → Frame
adopt n f = record f { children = snoc f.children n }

-- `case Node::START`, up to the type byte; `getCurrentNode` throws on an empty stack.
unfoldable pub on_start : ℕ → List Frame → Option Node → Option Parser
on_start it [] root = none
on_start it (f ∷ stack) root =
    some (record { mode = Mode.type_byte; stack = end_props it f ∷ stack; root = root })

-- The rest of it: the child is on top of the stack.
unfoldable pub on_type : ℕ → ℕ → List Frame → Option Node → Option Parser
on_type it b stack root =
    let child : Frame = record {
      type = b;
      props_begin = it + 1;
      props_end = none;
      children = nil;
    } in
    some (record { mode = Mode.scanning; stack = child ∷ stack; root = root })

-- `case Node::END`
unfoldable pub on_end : ℕ → List Frame → Option Node → Option Parser
on_end it [] root = none
on_end it (f ∷ []) root =
    some (record { mode = Mode.scanning; stack = []; root = some (to_node (end_props it f)) })
on_end it (f ∷ parent ∷ stack) root = some (record {
  mode = Mode.scanning;
  stack = adopt (to_node (end_props it f)) parent ∷ stack;
  root = root;
})

unfoldable pub scan : ℕ → ℕ → List Frame → Option Node → Option Parser
scan it b stack root =
    if b == start_char
    then on_start it stack root
    else if b == end_char
    then on_end it stack root
    else if b == escape_char
    then some (record { mode = Mode.escaped; stack = stack; root = root })
    else some (record { mode = Mode.scanning; stack = stack; root = root })

unfoldable pub on_byte : Mode → ℕ → ℕ → List Frame → Option Node → Option Parser
on_byte scanning it b stack root = scan it b stack root
on_byte type_byte it b stack root = on_type it b stack root
on_byte escaped it b stack root = some (record { mode = Mode.scanning; stack = stack; root = root })

-- `for (; it != fileContents.end(); ++it)`
unfoldable pub parse_loop : ℕ → Parser → List ℕ → Option Parser
parse_loop it p [] = some p
parse_loop it p (b ∷ bs) = elim (on_byte p.mode it b p.stack p.root) [
  | none ↦ none
  | some p' ↦ parse_loop (it + 1) p' bs
]

-- At the end of the file: within `++it` both cases throw, and so does an open node.
unfoldable pub finish : Mode → List Frame → Option Node → Option Node
finish scanning [] root = root
finish scanning (f ∷ stack) root = none
finish type_byte stack root = none
finish escaped stack root = none

-- `parseTree`, on a file that the constructor accepted.
unfoldable pub parse_tree : List ℕ → Option Node
unfolding finish
parse_tree file =
    let root_frame : Frame = record {
      type = get_or file 5 0;
      props_begin = 6;
      props_end = none;
      children = nil;
    } in
    if not (get_or file 4 0 == start_char)
    then none
    else (parse_loop 6 (record { mode = Mode.scanning; stack = root_frame ∷ []; root = none })
          (drop 6 file)
        >>= λ p. finish p.mode p.stack p.root)

abbrev pub wildcard : List ℕ
wildcard = 0 ∷ 0 ∷ 0 ∷ 0 ∷ []

-- The constructor: the contents, unless it throws.
unfoldable pub open_file : List ℕ → List ℕ → Option (List ℕ)
unfolding same_bytes
open_file file accepted =
    if leb (length file) 7
    then none
    else if not (same_bytes (take 4 file) accepted) && not (same_bytes (take 4 file) wildcard)
    then none
    else some file

-- The bytes between two iterators.
abbrev pub slice : List ℕ → ℕ → ℕ → List ℕ
slice file from to = take (to - from) (drop from file)

-- The `copy_if` of `getProps`, with `lastEscaped`.
unfoldable pub unescape : Bool → List ℕ → List ℕ
unescape last_escaped [] = []
unescape last_escaped (b ∷ bs) =
    let last_escaped' = (b == escape_char) && not last_escaped in
    let rest = unescape last_escaped' bs in if last_escaped' then rest else b ∷ rest

-- `getProps`; `none` is the result false. A node of a parsed tree has its end set.
unfoldable pub get_props : List ℕ → Node → Option (List ℕ)
get_props file (node type props_begin none children) = none
get_props file (node type props_begin (some props_end) children) =
    if props_end - props_begin == 0
    then none
    else some (unescape false (slice file props_begin props_end))
