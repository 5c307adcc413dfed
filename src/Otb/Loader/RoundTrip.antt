-- ===== src/Otb/Loader/RoundTrip.antt =====
-- What `parseTree` and `getProps` of src/fileloader.cpp make of the bytes of a tree.
use zenonia.Base.{
  same_bytes_refl, ℕ, ◌+◌, ◌-◌, ◌≡◌, refl, sym, ap, ◌∙◌, false, Option, none, some, List, [], ◌∷◌,
  ◌++◌, length, take, ◌==◌, arith, length-append, append_assoc, take-append, drop-append,
  append-nil, Bool-cases, inl, inr, leb, ◌<◌,
}
use zenonia.Otb.Loader.{
  Nodes, node, start_char, end_char, get_props, parse_tree, on_end, ◌>>=◌, slice, open_file,
}
use zenonia.Otb.Loader.Encoding.{
  Tree, Trees, tree, escape, encode, encodes, decode, decodes, or_empty, unescape-escape,
}
use zenonia.Otb.Loader.Reading.{node_of, nodes_of, body_lem, closed, run_trees, opened}

escape-nil : (bs : List ℕ) → length (escape bs) ≡ 0 → bs ≡ []
unfolding escape
escape-nil [] h = refl
escape-nil (b ∷ bs) h = ground arith

slice-middle :
    (pre mid post : List ℕ)
    → slice (pre ++ (mid ++ post)) (length pre) (length pre + length mid) ≡ mid
slice-middle pre mid post =
    let e : length pre + length mid - length pre ≡ length mid = omega arith in
    rw (e, drop-append pre (mid ++ post)) (take-append mid post)

props_lem :
    (file pre bs post : List ℕ) (from ty : ℕ) (ns : Nodes)
    → file ≡ pre ++ (escape bs ++ post)
    → length pre ≡ from
    → or_empty (get_props file (node ty from (some (from + length (escape bs))) ns)) ≡ bs
unfolding get_props
props_lem file pre bs post from ty ns h n =
    rw (h, sym n, slice-middle pre (escape bs) post, unescape-escape bs)
      (elim (Bool-cases (length pre + length (escape bs) - length pre == 0)) [
        | inl e ↦ rw (e, escape-nil bs (ground (arith, e)))
        | inr e ↦ rw e
      ])

regroup :
    (pre xs ys post : List ℕ) (a b c : ℕ)
    → pre ++ ((a ∷ b ∷ (xs ++ (ys ++ (c ∷ [])))) ++ post)
      ≡ (pre ++ (a ∷ b ∷ [])) ++ (xs ++ (ys ++ (c ∷ post)))
regroup pre xs ys post a b c = simp append_assoc

mutual
  unfolding encode encodes decode decodes node_of nodes_of

  decode-encode :
      (file pre : List ℕ) (t : Tree) (post : List ℕ)
      → file ≡ pre ++ (encode t ++ post)
      → decode file (node_of (length pre) t) ≡ t
  decode-encode file pre (tree ty props ts) post h =
      let mid = start_char ∷ ty ∷ [] in
      let rest = encodes ts ++ (end_char ∷ post) in
      let from = length pre + 2 in
      let body = from + length (escape props) in
      let n : length (pre ++ mid) ≡ from = length-append pre mid in
      let n' : length ((pre ++ mid) ++ escape props) ≡ body =
        length-append (pre ++ mid) (escape props) ∙ ap (λ k. k + length (escape props)) n in
      let h' = h ∙ regroup pre (escape props) (encodes ts) post start_char ty end_char in
      let children : decodes file (nodes_of body ts) ≡ ts = rw n' at (
        decodes-encodes file ((pre ++ mid) ++ escape props) ts (end_char ∷ post)
          (h' ∙ sym (append_assoc (pre ++ mid) (escape props) rest))) in
      rw (props_lem file (pre ++ mid) props rest from ty (nodes_of body ts) h' n, children)

  decodes-encodes :
      (file pre : List ℕ) (ts : Trees) (post : List ℕ)
      → file ≡ pre ++ (encodes ts ++ post)
      → decodes file (nodes_of (length pre) ts) ≡ ts
  decodes-encodes file pre Trees.nil post h = refl
  decodes-encodes file pre (Trees.cons t ts) post h =
      let h' : file ≡ pre ++ (encode t ++ (encodes ts ++ post)) =
        h ∙ ap (λ bs. pre ++ bs) (append_assoc (encode t) (encodes ts) post) in
      let more : decodes file (nodes_of (length pre + length (encode t)) ts) ≡ ts =
        rw (length-append pre (encode t)) at (
          decodes-encodes file (pre ++ encode t) ts post
            (h' ∙ sym (append_assoc pre (encode t) (encodes ts ++ post)))) in
      rw (decode-encode file pre t (encodes ts ++ post) h', more)

root_lem : (a b c d : ℕ) (t : Tree) → parse_tree (a ∷ b ∷ c ∷ d ∷ encode t) ≡ some (node_of 4 t)
unfolding parse_tree encode node_of on_end
root_lem a b c d (tree ty props ts) =
    let from = 6 + length (escape props) in
    rw (
      body_lem 6 (opened ty 6) [] none props ts (run_trees from ts (opened ty 6) [] none),
      closed ty 6 from ts,
    )

-- A file that is opened and parsed, and the tree that its root stands for.
abbrev pub load : List ℕ → List ℕ → Option Tree
load file accepted =
    open_file file accepted >>= λ contents. parse_tree contents >>= λ n. some (decode contents n)

open_file-accepted :
    (sig bs : List ℕ)
    → length sig ≡ 4
    → 7 < length (sig ++ bs)
    → open_file (sig ++ bs) sig ≡ some (sig ++ bs)
unfolding open_file
open_file-accepted sig bs n h =
    let e : leb (length (sig ++ bs)) 7 ≡ false = ground (arith, h) in
    let t : take 4 (sig ++ bs) ≡ sig = rw n at (take-append sig bs) in
    rw (e, t, same_bytes_refl sig)

-- A file of a signature and the bytes of a tree is opened and parsed to a node through which the
-- loader reads the same tree back, if it is longer than the seven bytes of a bare root.
pub load-encode :
    (sig : List ℕ) (t : Tree)
    → length sig ≡ 4
    → 7 < length (sig ++ encode t)
    → load (sig ++ encode t) sig ≡ some t
load-encode [] t n h = ground arith
load-encode (a ∷ []) t n h = ground arith
load-encode (a ∷ b ∷ []) t n h = ground arith
load-encode (a ∷ b ∷ c ∷ []) t n h = ground arith
load-encode (a ∷ b ∷ c ∷ d ∷ e ∷ bs) t n h = ground arith
load-encode (a ∷ b ∷ c ∷ d ∷ []) t n h =
    let sig = a ∷ b ∷ c ∷ d ∷ [] in
    let e : sig ++ encode t ≡ sig ++ (encode t ++ []) = rw (append-nil (encode t)) in
    rw (
      open_file-accepted sig (encode t) n h,
      root_lem a b c d t,
      decode-encode (sig ++ encode t) sig t [] e,
    )
