-- ===== src/LruReplacer/Nodes.antt =====
-- The list of nodes of the replacer: what it means that map and list agree, and how erasing a node
-- and popping the back look from outside.
use atangyldb.Base.{
  ℕ, ◌+◌, ◌≤◌, ◌<◌, ◌≡◌, ◌≢◌, refl, Option, none, some, List, [], ◌∷◌, if◌then◌else◌, ◌==◌, arith,
  length, true, false,
}
use atangyldb.Base.Lists.{contains}
use atangyldb.LruReplacer.{Node, erase_node, back, pop_back}

-- The abstract list: frame ids, the newest first.
unfoldable pub frames : List Node → List ℕ
frames [] = []
frames (n ∷ ns) = n.frame ∷ frames ns

unfoldable pub remove : ℕ → List ℕ → List ℕ
remove f [] = []
remove f (x ∷ xs) = if x == f then xs else x ∷ remove f xs

unfoldable pub last : List ℕ → ℕ
last [] = 0
last (x ∷ []) = x
last (x ∷ y ∷ xs) = last (y ∷ xs)

unfoldable pub drop_last : List ℕ → List ℕ
drop_last [] = []
drop_last (x ∷ []) = []
drop_last (x ∷ y ∷ xs) = x ∷ drop_last (y ∷ xs)

-- The node that holds a frame.
unfoldable pub node_of : ℕ → List Node → Option ℕ
node_of f [] = none
node_of f (n ∷ ns) = if n.frame == f then some n.id else node_of f ns

-- Identities fall along the list, below a bound; no frame stands twice.
abbrev pub Descending : ℕ → List Node → Type 0
Descending b [] = Unit {0}
Descending b (n ∷ ns) = (n.id < b) × Descending n.id ns

abbrev pub IsDistinct : List Node → Type 0
IsDistinct [] = Unit {0}
IsDistinct (n ∷ ns) = (node_of n.frame ns ≡ none) × IsDistinct ns

pub Descending-mono : (b c : ℕ) (ns : List Node) → b ≤ c → Descending b ns → Descending c ns
Descending-mono b c [] le d = tt
Descending-mono b c (n ∷ ns) le d = (omega arith, d.1)

node_of-lt : (f it b : ℕ) (ns : List Node) → Descending b ns → node_of f ns ≡ some it → it < b
unfolding node_of
node_of-lt f it b [] d e = absurd (cc)
node_of-lt f it b (n ∷ ns) d e = ground (arith, node_of-lt f it n.id ns d.1)

pub contains-node_of :
    (f : ℕ) (ns : List Node)
    → contains f (frames ns) ≡ elim (node_of f ns) [ none ↦ false | some _ ↦ true ]
unfolding contains frames node_of
contains-node_of f [] = refl
contains-node_of f (n ∷ ns) = ground (arith, contains-node_of f ns)

module _ (f it : ℕ) where
  pub erase_node-frames :
      (b : ℕ) (ns : List Node)
      → Descending b ns
      → node_of f ns ≡ some it
      → frames (erase_node it ns) ≡ remove f (frames ns)
  unfolding node_of erase_node frames remove
  erase_node-frames b [] d e = refl
  erase_node-frames b (n ∷ ns) d e =
      ground (arith, node_of-lt f it n.id ns d.1, erase_node-frames n.id ns d.1)

  pub length-erase_node :
      (ns : List Node) (b : ℕ)
      → Descending b ns
      → node_of f ns ≡ some it
      → length (erase_node it ns) + 1 ≡ length ns
  unfolding node_of erase_node
  length-erase_node [] b d e = cc
  length-erase_node (n ∷ ns) b d e =
      ground (arith, node_of-lt f it n.id ns d.1, length-erase_node ns n.id d.1)

  pub node_of-erase_node :
      (g b : ℕ) (ns : List Node)
      → Descending b ns
      → IsDistinct ns
      → node_of f ns ≡ some it
      → node_of g (erase_node it ns) ≡ (if f == g then none else node_of g ns)
  unfolding node_of erase_node
  node_of-erase_node g b [] d u e = cc
  node_of-erase_node g b (n ∷ ns) d u e =
      ground (arith, node_of-lt f it n.id ns d.1, node_of-erase_node g n.id ns d.1 u.1)

  pub erase_node-Descending :
      (b : ℕ) (ns : List Node) → Descending b ns → Descending b (erase_node it ns)
  unfolding erase_node
  erase_node-Descending b [] d = tt
  erase_node-Descending b (n ∷ ns) d =
      ground (arith, erase_node-Descending n.id ns d.1, Descending-mono n.id b ns)

  pub erase_node-IsDistinct :
      (b : ℕ) (ns : List Node)
      → Descending b ns
      → IsDistinct ns
      → node_of f ns ≡ some it
      → IsDistinct (erase_node it ns)
  unfolding erase_node node_of
  erase_node-IsDistinct b [] d u e = tt
  erase_node-IsDistinct b (n ∷ ns) d u e = ground (
    arith,
    node_of-lt f it n.id ns d.1,
    node_of-erase_node n.frame n.id ns d.1 u.1,
    erase_node-IsDistinct n.id ns d.1 u.1,
  )

pub frames-pop_back :
    (ns : List Node) → (frames (pop_back ns) ≡ drop_last (frames ns)) × (back ns ≡ last (frames ns))
unfolding frames pop_back drop_last back last
frames-pop_back [] = (refl, refl)
frames-pop_back (n ∷ []) = (refl, refl)
frames-pop_back (n ∷ m ∷ ns) = ground (arith, frames-pop_back (m ∷ ns))

pub length-pop_back : (ns : List Node) → 0 < length ns → length (pop_back ns) + 1 ≡ length ns
unfolding pop_back
length-pop_back [] h = absurd (omega arith)
length-pop_back (n ∷ []) h = omega arith
length-pop_back (n ∷ m ∷ ns) h = omega (arith, length-pop_back (m ∷ ns) (omega arith))

pub node_of-back : (ns : List Node) → 0 < length ns → node_of (back ns) ns ≢ none
unfolding node_of back
node_of-back [] h = absurd (omega arith)
node_of-back (n ∷ []) h = ground arith
node_of-back (n ∷ m ∷ ns) h = ground (arith, node_of-back (m ∷ ns))

pub node_of-pop_back :
    (g : ℕ) (ns : List Node)
    → IsDistinct ns
    → node_of g (pop_back ns) ≡ (if back ns == g then none else node_of g ns)
unfolding node_of pop_back back
node_of-pop_back g [] u = ground arith
node_of-pop_back g (n ∷ []) u = ground arith
node_of-pop_back g (n ∷ m ∷ ns) u =
    ground (arith, node_of-pop_back g (m ∷ ns), node_of-back (m ∷ ns))

pub pop_back-Descending : (b : ℕ) (ns : List Node) → Descending b ns → Descending b (pop_back ns)
unfolding pop_back
pop_back-Descending b [] d = tt
pop_back-Descending b (n ∷ []) d = tt
pop_back-Descending b (n ∷ m ∷ ns) d = (d.0, pop_back-Descending n.id (m ∷ ns) d.1)

pub pop_back-IsDistinct : (ns : List Node) → IsDistinct ns → IsDistinct (pop_back ns)
unfolding pop_back
pop_back-IsDistinct [] u = tt
pop_back-IsDistinct (n ∷ []) u = tt
pop_back-IsDistinct (n ∷ m ∷ ns) u =
    ground (arith, node_of-pop_back n.frame (m ∷ ns) u.1, pop_back-IsDistinct (m ∷ ns) u.1)

pub length-frames : (ns : List Node) → length (frames ns) ≡ length ns
unfolding frames
length-frames [] = refl
length-frames (n ∷ ns) = ground (arith, length-frames ns)

pub remove-absent :
    (f : ℕ) (ns : List Node) → node_of f ns ≡ none → remove f (frames ns) ≡ frames ns
unfolding remove frames node_of
remove-absent f [] e = refl
remove-absent f (n ∷ ns) e = ground (arith, remove-absent f ns)
