-- ===== src/Otb/Loader/Reading.antt =====
-- The loop of `parseTree` of src/fileloader.cpp over the bytes of a tree.
use zenonia.Base.{
  ℕ, suc, ◌+◌, ◌≡◌, refl, ap, ◌∙◌, false, Option, none, some, List, [], ◌∷◌, ◌++◌, length, arith,
}
use zenonia.Otb.Loader.{
  Node, Nodes, node, nil, cons, snoc, is_nil, Frame, Mode, Parser, ◌>>=◌, start_char, end_char,
  end_props, to_node, adopt, on_start, on_type, on_end, scan, on_byte, parse_loop,
}
use zenonia.Otb.Loader.Encoding.{Tree, Trees, tree, escape, encode, encodes}

parse_loop-append :
    (it : ℕ) (p : Parser) (xs ys : List ℕ)
    → parse_loop it p (xs ++ ys) ≡ (parse_loop it p xs >>= λ p'. parse_loop (it + length xs) p' ys)
unfolding parse_loop
parse_loop-append it p [] ys = let e : it + 0 ≡ it = omega arith in rw e
parse_loop-append it p (b ∷ xs) ys =
    let e : it + suc (length xs) ≡ it + 1 + length xs = omega arith in
    rw e (step (on_byte p.mode it b p.stack p.root) (λ p'. parse_loop-append (it + 1) p' xs ys))
  where
    step :
        (o : Option Parser)
        → ((p' : Parser)
            → parse_loop (it + 1) p' (xs ++ ys)
              ≡ (parse_loop (it + 1) p' xs >>= λ p''. parse_loop (it + 1 + length xs) p'' ys))
        → ◌≡◌ {A = Option Parser}
            (elim o [ none ↦ none | some p' ↦ parse_loop (it + 1) p' (xs ++ ys) ])
            (elim o as (λ _. Option Parser) [ none ↦ none | some p' ↦ parse_loop (it + 1) p' xs ]
              >>= λ p''. parse_loop (it + 1 + length xs) p'' ys)
    step none ih = refl
    step (some p') ih = ih p'

parse_loop-nil : (it : ℕ) (p : Parser) → parse_loop it p [] ≡ some p
unfolding parse_loop
parse_loop-nil it p = refl

abbrev pub at : List Frame → Option Node → Parser
at stack root = record { mode = Mode.scanning; stack = stack; root = root }

-- Escaped properties leave the parser as it is.
parse_loop-escape :
    (it : ℕ) (stack : List Frame) (root : Option Node) (bs : List ℕ)
    → parse_loop it (at stack root) (escape bs) ≡ some (at stack root)
unfolding parse_loop escape on_byte scan
parse_loop-escape it stack root [] = refl
parse_loop-escape it stack root (b ∷ bs) =
    ground (
      arith,
      parse_loop-escape (it + 1) stack root bs,
      parse_loop-escape (it + 1 + 1) stack root bs,
    )

-- The node that a tree at an offset becomes.
unfoldable mutual
  pub node_of : ℕ → Tree → Node
  node_of it (tree ty props children) =
      let body = it + 2 + length (escape props) in
      node ty (it + 2) (some body) (nodes_of body children)

  pub nodes_of : ℕ → Trees → Nodes
  nodes_of it Trees.nil = nil
  nodes_of it (Trees.cons t ts) = cons (node_of it t) (nodes_of (it + length (encode t)) ts)

-- A frame after a run of children.
pub adopts : ℕ → Trees → Frame → Frame
adopts it Trees.nil f = f
adopts it (Trees.cons t ts) f =
    adopts (it + length (encode t)) ts (adopt (node_of it t) (end_props it f))

append : Nodes → Nodes → Nodes
append nil ns = ns
append (cons c cs) ns = cons c (append cs ns)

append-nil_lem : (ns : Nodes) → append ns nil ≡ ns
unfolding append
append-nil_lem nil = refl
append-nil_lem (cons c cs) = ap (cons c) (append-nil_lem cs)

append-snoc : (cs : Nodes) (n : Node) (ns : Nodes) → append (snoc cs n) ns ≡ append cs (cons n ns)
unfolding append snoc
append-snoc nil n ns = refl
append-snoc (cons c cs) n ns = ap (cons c) (append-snoc cs n ns)

is_nil-snoc : (cs : Nodes) (n : Node) → is_nil (snoc cs n) ≡ false
unfolding snoc
is_nil-snoc nil n = refl
is_nil-snoc (cons c cs) n = refl

adopts_more :
    (it : ℕ) (ts : Trees) (f : Frame)
    → is_nil f.children ≡ false
    → adopts it ts f ≡ record f { children = append f.children (nodes_of it ts) }
unfolding adopts nodes_of adopt end_props
adopts_more it Trees.nil f h = rw append-nil_lem
adopts_more it (Trees.cons t ts) f h =
    let n = node_of it t in
    let f' : Frame = record f { children = snoc f.children n } in
    rw h (
      adopts_more (it + length (encode t)) ts f' (is_nil-snoc f.children n)
      ∙ ap (λ (cs : Nodes). let g : Frame = record f { children = cs } in g)
          (append-snoc f.children n (nodes_of (it + length (encode t)) ts)))

abbrev pub opened : ℕ → ℕ → Frame
opened ty from = record { type = ty; props_begin = from; props_end = none; children = nil }

-- What a node that was opened at `from` ends as.
pub closed :
    (ty from it : ℕ) (ts : Trees)
    → to_node (end_props (it + length (encodes ts)) (adopts it ts (opened ty from)))
      ≡ node ty from (some it) (nodes_of it ts)
unfolding adopts nodes_of encodes adopt end_props snoc append
closed ty from it Trees.nil = let e : it + 0 ≡ it = omega arith in rw e
closed ty from it (Trees.cons t ts) =
    let f : Frame = record {
      type = ty;
      props_begin = from;
      props_end = some it;
      children = cons (node_of it t) nil;
    } in
    rw (adopts_more (it + length (encode t)) ts f refl)

end_byte :
    (it : ℕ) (stack : List Frame) (root : Option Node)
    → parse_loop it (at stack root) (end_char ∷ []) ≡ on_end it stack root
unfolding parse_loop on_byte scan on_end
end_byte it [] root = refl
end_byte it (f ∷ []) root = refl
end_byte it (f ∷ parent ∷ stack) root = refl

-- The bytes of an open node, its end included.
pub body_lem :
    (it : ℕ) (f : Frame) (stack : List Frame) (root : Option Node) (props : List ℕ) (ts : Trees)
    → parse_loop (it + length (escape props)) (at (f ∷ stack) root) (encodes ts)
      ≡ some (at (adopts (it + length (escape props)) ts f ∷ stack) root)
    → parse_loop it (at (f ∷ stack) root) (escape props ++ (encodes ts ++ (end_char ∷ [])))
      ≡ on_end
          (it + length (escape props) + length (encodes ts))
          (adopts (it + length (escape props)) ts f ∷ stack)
          root
body_lem it f stack root props ts inner =
    let from = it + length (escape props) in
    let g = adopts from ts f in
    parse_loop-append it (at (f ∷ stack) root) (escape props) (encodes ts ++ (end_char ∷ []))
    ∙ rw (parse_loop-escape it (f ∷ stack) root props) (
        parse_loop-append from (at (f ∷ stack) root) (encodes ts) (end_char ∷ [])
        ∙ rw inner (end_byte (from + length (encodes ts)) (g ∷ stack) root))

-- The first two bytes of a child.
opening_lem :
    (it ty : ℕ) (f : Frame) (stack : List Frame) (root : Option Node) (bs : List ℕ)
    → parse_loop it (at (f ∷ stack) root) (start_char ∷ ty ∷ bs)
      ≡ parse_loop (it + 2) (at (opened ty (it + 2) ∷ end_props it f ∷ stack) root) bs
unfolding parse_loop on_byte scan on_start on_type
opening_lem it ty f stack root bs = let e : it + 1 + 1 ≡ it + 2 = omega arith in rw e

mutual
  unfolding encode node_of on_end encodes adopts

  pub run_tree :
      (it : ℕ) (t : Tree) (f : Frame) (stack : List Frame) (root : Option Node)
      → parse_loop it (at (f ∷ stack) root) (encode t)
        ≡ some (at (adopt (node_of it t) (end_props it f) ∷ stack) root)
  run_tree it (tree ty props ts) f stack root =
      let from = it + 2 + length (escape props) in
      let g = opened ty (it + 2) in
      opening_lem it ty f stack root (escape props ++ (encodes ts ++ (end_char ∷ [])))
      ∙ body_lem (it + 2) g (end_props it f ∷ stack) root props ts
          (run_trees from ts g (end_props it f ∷ stack) root)
      ∙ rw (closed ty (it + 2) from ts)

  pub run_trees :
      (it : ℕ) (ts : Trees) (f : Frame) (stack : List Frame) (root : Option Node)
      → parse_loop it (at (f ∷ stack) root) (encodes ts) ≡ some (at (adopts it ts f ∷ stack) root)
  run_trees it Trees.nil f stack root = parse_loop-nil it (at (f ∷ stack) root)
  run_trees it (Trees.cons t ts) f stack root =
      parse_loop-append it (at (f ∷ stack) root) (encode t) (encodes ts)
      ∙ rw (run_tree it t f stack root)
          (run_trees (it + length (encode t)) ts (adopt (node_of it t) (end_props it f)) stack root)
