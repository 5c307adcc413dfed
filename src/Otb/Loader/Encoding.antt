-- ===== src/Otb/Loader/Encoding.antt =====
-- The files that src/fileloader.cpp is written for: a tree of nodes, each with a type, its
-- properties and its children, and the bytes that stand for it.
use zenonia.Base.{
  ℕ, Bool, false, ◌||◌, Option, none, some, List, [], ◌∷◌, ◌++◌, ◌==◌, if◌then◌else◌, ◌≡◌, refl,
  arith,
}
use zenonia.Otb.Loader.{Node, Nodes, node, escape_char, start_char, end_char, unescape, get_props}

mutual
  pub data Tree : Type 0 where
    tree : ℕ → List ℕ → Trees → Tree

  pub data Trees : Type 0 where
    nil : Trees
    cons : Tree → Trees → Trees

abbrev pub special : ℕ → Bool
special b = b == escape_char || b == start_char || b == end_char

unfoldable pub escape : List ℕ → List ℕ
escape [] = []
escape (b ∷ bs) = let rest = escape bs in if special b then escape_char ∷ b ∷ rest else b ∷ rest

unfoldable mutual
  pub encode : Tree → List ℕ
  encode (tree ty props children) =
      start_char ∷ ty ∷ (escape props ++ (encodes children ++ (end_char ∷ [])))

  pub encodes : Trees → List ℕ
  encodes nil = []
  encodes (cons t ts) = encode t ++ encodes ts

-- What a parsed node stands for, the properties as `getProps` gives them.
abbrev pub or_empty : Option (List ℕ) → List ℕ
or_empty none = []
or_empty (some bs) = bs

unfoldable mutual
  pub decode : List ℕ → Node → Tree
  decode file (node ty from to children) =
      tree ty (or_empty (get_props file (node ty from to children))) (decodes file children)

  pub decodes : List ℕ → Nodes → Trees
  decodes file Nodes.nil = Trees.nil
  decodes file (Nodes.cons n ns) = Trees.cons (decode file n) (decodes file ns)

pub unescape-escape : (bs : List ℕ) → unescape false (escape bs) ≡ bs
unfolding unescape escape
unescape-escape [] = refl
unescape-escape (b ∷ bs) = ground (arith, unescape-escape bs)
