-- ===== src/Tests/OtbTests.antt =====
-- src/fileloader.h and src/fileloader.cpp on concrete bytes.
use zenonia.Base.{
  same_bytes, ℕ, ◌≡◌, refl, arith, List, [], ◌∷◌, ◌++◌, ◌<◌, none, some, length, map,
}
use zenonia.Otb.PropStream.{Item, shape, read_items, write_items}
use zenonia.Otb.PropStream.RoundTrip.{read_items-write_items}
use zenonia.Otb.Loader.{
  open_file, parse_tree, parse_loop, on_byte, scan, on_end, on_start, on_type, end_props, adopt,
  snoc, finish,
}
use zenonia.Otb.Loader.Encoding.{Tree, Trees, tree, encode, encodes, escape}
use zenonia.Otb.Loader.Reading.{node_of, nodes_of}
use zenonia.Otb.Loader.RoundTrip.{load, load-encode}
use zenonia.Otb.Loader.Extents.{parse_tree-WithinFile}
use zenonia.Otb.Loader.Frames.{WithinFile}

abbrev saved : List Item
saved = Item.number 1 7 ∷ Item.text (65 ∷ 66 ∷ []) ∷ Item.number 4 100000 ∷ []

read_items-write_items_example :
    read_items (map shape saved) (write_items saved [] ++ (9 ∷ [])) ≡ some (saved, 9 ∷ [])
read_items-write_items_example =
    read_items-write_items saved (9 ∷ []) (omega arith, (omega arith, (omega arith, tt)))

-- A node with a property byte that needs an escape, and a child.
abbrev house_tree : Tree
house_tree = tree 1 (254 ∷ 3 ∷ []) (Trees.cons (tree 2 [] Trees.nil) Trees.nil)

abbrev signature : List ℕ
signature = 79 ∷ 84 ∷ 66 ∷ 77 ∷ []

house_bytes : encode house_tree ≡ 254 ∷ 1 ∷ 253 ∷ 254 ∷ 3 ∷ 254 ∷ 2 ∷ 255 ∷ 255 ∷ []
unfolding encode encodes escape
house_bytes = refl

long_enough : 7 < length (signature ++ encode house_tree)
unfolding encode encodes escape
long_enough = omega arith

load-encode_example : load (signature ++ encode house_tree) signature ≡ some house_tree
load-encode_example = load-encode signature house_tree refl long_enough

abbrev house_file : List ℕ
house_file = signature ++ (254 ∷ 1 ∷ 253 ∷ 254 ∷ 3 ∷ 254 ∷ 2 ∷ 255 ∷ 255 ∷ [])

opened_house : open_file house_file signature ≡ some house_file
unfolding open_file same_bytes
opened_house = refl

parsed_house : parse_tree house_file ≡ some (node_of 4 house_tree)
unfolding parse_tree parse_loop on_byte scan on_end on_start on_type end_props adopt snoc finish
    node_of nodes_of escape
parsed_house = refl

parse_tree-WithinFile_example : WithinFile (length house_file) (node_of 4 house_tree)
parse_tree-WithinFile_example =
    parse_tree-WithinFile house_file signature house_file (node_of 4 house_tree) opened_house
      parsed_house

-- A file that ends within a node is refused.
cut_short : parse_tree (signature ++ (254 ∷ 1 ∷ 254 ∷ 2 ∷ 255 ∷ [])) ≡ none
unfolding parse_tree parse_loop on_byte scan on_end on_start on_type end_props adopt snoc finish
cut_short = refl

-- So is the file of a bare root.
bare_root : open_file (signature ++ (254 ∷ 1 ∷ 255 ∷ [])) signature ≡ none
unfolding open_file
bare_root = refl
