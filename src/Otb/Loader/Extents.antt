-- ===== src/Otb/Loader/Extents.antt =====
-- Where the nodes of a tree that `parseTree` of src/fileloader.cpp returns lie in the file.
use zenonia.Base.{
  ℕ, ◌+◌, ◌≤◌, ◌<◌, ◌≡◌, refl, Option, none, some, List, [], ◌∷◌, length, ◌==◌, arith, Bool-cases,
  inl, inr, drop, length-drop, get_or,
}
use zenonia.Otb.Loader.{
  Node, nil, Frame, Mode, Parser, parse_tree, open_file, parse_loop, on_end, on_start, on_type,
  on_byte, scan, finish, end_props, to_node, start_char, end_char, escape_char, ◌>>=◌,
}
use zenonia.Otb.Loader.Frames.{
  BelowIsFine, RootIsFine, StackIsFine, IsFine, end_props_lem, to_node_lem, adopt_lem,
  BelowIsFine-suc, StackIsFine-suc, escaped_lem, WithinFile,
}

abbrev Keeps : ℕ → ℕ → Option Parser → Type 0
Keeps size it none = Unit
Keeps size it (some p) = IsFine size it p

on_start-IsFine :
    (size it : ℕ) (stack : List Frame) (root : Option Node)
    → it ≤ size
    → StackIsFine size it Mode.scanning stack
    → RootIsFine size root
    → Keeps size (it + 1) (on_start it stack root)
unfolding on_start
on_start-IsFine size it [] root b h r = tt
on_start-IsFine size it (f ∷ stack) root b (h, hs) r =
    (BelowIsFine-suc size it (end_props it f ∷ stack) (end_props_lem size it f b h, hs), r)

on_end-IsFine :
    (size it : ℕ) (stack : List Frame) (root : Option Node)
    → it ≤ size
    → StackIsFine size it Mode.scanning stack
    → RootIsFine size root
    → Keeps size (it + 1) (on_end it stack root)
unfolding on_end
on_end-IsFine size it [] root b h r = tt
on_end-IsFine size it (f ∷ []) root b (h, hs) r =
    (tt, to_node_lem size it (end_props it f) (end_props_lem size it f b h))
on_end-IsFine size it (f ∷ parent ∷ stack) root b (h, (hp, hs)) r =
    let n = to_node (end_props it f) in
    let w = to_node_lem size it (end_props it f) (end_props_lem size it f b h) in
    ((adopt_lem size it n parent w hp, BelowIsFine-suc size it stack hs), r)

on_type-IsFine :
    (size it b : ℕ) (stack : List Frame) (root : Option Node)
    → BelowIsFine size it stack
    → RootIsFine size root
    → Keeps size (it + 1) (on_type it b stack root)
unfolding on_type
on_type-IsFine size it b stack root hs r =
    (((omega arith, inl refl, tt), BelowIsFine-suc size it stack hs), r)

scan-IsFine :
    (size it b : ℕ) (stack : List Frame) (root : Option Node)
    → it ≤ size
    → StackIsFine size it Mode.scanning stack
    → RootIsFine size root
    → Keeps size (it + 1) (scan it b stack root)
unfolding scan
scan-IsFine size it b stack root le h r =
    let more = StackIsFine-suc size it stack h in
    elim (Bool-cases (b == start_char)) [
      | inl e ↦ rw e (on_start-IsFine size it stack root le h r)
      | inr e ↦ rw e (elim (Bool-cases (b == end_char)) [
        | inl e' ↦ rw e' (on_end-IsFine size it stack root le h r)
        | inr e' ↦ rw e' (elim (Bool-cases (b == escape_char)) [
          | inl e'' ↦ rw e'' (more.1, r)
          | inr e'' ↦ rw e'' (more.0, r)
        ])
      ])
    ]

on_byte-IsFine :
    (size it b : ℕ) (mode : Mode) (stack : List Frame) (root : Option Node)
    → it ≤ size
    → StackIsFine size it mode stack
    → RootIsFine size root
    → Keeps size (it + 1) (on_byte mode it b stack root)
unfolding on_byte
on_byte-IsFine size it b Mode.scanning stack root le h r = scan-IsFine size it b stack root le h r
on_byte-IsFine size it b Mode.type_byte stack root le h r =
    on_type-IsFine size it b stack root (h) r
on_byte-IsFine size it b Mode.escaped stack root le h r =
    let more = StackIsFine-suc size it stack (escaped_lem size it stack h) in (more.0, r)

parse_loop-IsFine :
    (size it : ℕ) (p : Parser) (bs : List ℕ)
    → it + length bs ≡ size
    → IsFine size it p
    → Keeps size size (parse_loop it p bs)
unfolding parse_loop
parse_loop-IsFine size it p [] n h = let e : it ≡ size = omega (arith, n) in rw e at h
parse_loop-IsFine size it p (b ∷ bs) n (h, r) =
    step (on_byte p.mode it b p.stack p.root)
      (on_byte-IsFine size it b p.mode p.stack p.root (omega (arith, n)) h r)
      (λ p' h'. parse_loop-IsFine size (it + 1) p' bs (omega (arith, n)) h')
  where
    step :
        (o : Option Parser)
        → Keeps size (it + 1) o
        → ((p' : Parser) → IsFine size (it + 1) p' → Keeps size size (parse_loop (it + 1) p' bs))
        → Keeps size size
            (elim o as (λ _. Option Parser) [ none ↦ none | some p' ↦ parse_loop (it + 1) p' bs ])
    step none k ih = tt
    step (some p') k ih = ih p' (k)

finish-WithinFile :
    (size : ℕ) (mode : Mode) (stack : List Frame) (root : Option Node) (n : Node)
    → RootIsFine size root
    → finish mode stack root ≡ some n
    → WithinFile size n
unfolding finish
finish-WithinFile size Mode.scanning [] root n r e =
    let r' : RootIsFine size (some n) = rw e at r in r'
finish-WithinFile size Mode.scanning (f ∷ stack) root n r e = ground arith
finish-WithinFile size Mode.type_byte stack root n r e = ground arith
finish-WithinFile size Mode.escaped stack root n r e = ground arith

open_file-length :
    (file accepted contents : List ℕ)
    → open_file file accepted ≡ some contents
    → 7 < length contents
unfolding open_file
open_file-length file accepted contents e = ground (arith, e)

finished :
    (size : ℕ) (o : Option Parser) (n : Node)
    → Keeps size size o
    → (o >>= λ p. finish p.mode p.stack p.root) ≡ some n
    → WithinFile size n
finished size none n k e = ground arith
finished size (some p) n k e = finish-WithinFile size p.mode p.stack p.root n k.1 e

-- In a file that was opened, every node of the parsed tree has its end set, behind its begin and
-- within the file.
pub parse_tree-WithinFile :
    (file accepted contents : List ℕ) (n : Node)
    → open_file file accepted ≡ some contents
    → parse_tree contents ≡ some n
    → WithinFile (length contents) n
unfolding parse_tree
parse_tree-WithinFile file accepted contents n o e =
    let long = open_file-length file accepted contents o in
    let root_frame : Frame = record {
      type = get_or contents 5 0;
      props_begin = 6;
      props_end = none;
      children = nil;
    } in
    let p : Parser = record { mode = Mode.scanning; stack = root_frame ∷ []; root = none } in
    let fine : IsFine (length contents) 6 p = (((omega arith, inl refl, tt), tt), tt) in
    let covers : 6 + length (drop 6 contents) ≡ length contents =
      omega (arith, long, length-drop 6 contents) in
    elim (Bool-cases (get_or contents 4 0 == start_char)) [
      | inl starts ↦
          finished (length contents) (parse_loop 6 p (drop 6 contents)) n
            (parse_loop-IsFine (length contents) 6 p (drop 6 contents) covers fine) (rw starts at e)
      | inr other ↦ ground (arith, e, other)
    ]
