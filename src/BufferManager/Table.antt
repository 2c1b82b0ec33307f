-- ===== src/BufferManager/Table.antt =====
-- Laws of the page table of disk_buffer_pool.cpp.
use atangyldb.Base.{ℕ, ◌≡◌, refl, Bool, ◌&&◌, none, some, List, [], ◌∷◌, if◌then◌else◌, ◌==◌, arith}
use atangyldb.BufferManager.{Entry, lookup, put_entry, erase_entry}

abbrev pub same_key : ℕ → ℕ → ℕ → ℕ → Bool
same_key fd pn fd' pn' = fd == fd' && pn == pn'

-- No page has two entries.
abbrev pub IsKeyed : List Entry → Type 0
IsKeyed [] = Unit {0}
IsKeyed (e ∷ es) = (lookup e.fd e.pn es ≡ none) × IsKeyed es

pub lookup-put_entry :
    (fd pn f fd' pn' : ℕ) (t : List Entry)
    → lookup fd' pn' (put_entry fd pn f t)
      ≡ (if same_key fd pn fd' pn' then some f else lookup fd' pn' t)
unfolding lookup put_entry
lookup-put_entry fd pn f fd' pn' [] = refl
lookup-put_entry fd pn f fd' pn' (e ∷ es) = ground (arith, lookup-put_entry fd pn f fd' pn' es)

pub put_entry-IsKeyed : (fd pn f : ℕ) (t : List Entry) → IsKeyed t → IsKeyed (put_entry fd pn f t)
unfolding lookup put_entry
put_entry-IsKeyed fd pn f [] k = (refl, tt)
put_entry-IsKeyed fd pn f (e ∷ es) k =
    ground (arith, put_entry-IsKeyed fd pn f es k.1, lookup-put_entry fd pn f e.fd e.pn es)

pub lookup-erase_entry :
    (fd pn fd' pn' : ℕ) (t : List Entry)
    → IsKeyed t
    → lookup fd' pn' (erase_entry fd pn t)
      ≡ (if same_key fd pn fd' pn' then none else lookup fd' pn' t)
unfolding lookup erase_entry
lookup-erase_entry fd pn fd' pn' [] k = ground arith
lookup-erase_entry fd pn fd' pn' (e ∷ es) k =
    ground (arith, lookup-erase_entry fd pn fd' pn' es k.1)

pub erase_entry-IsKeyed : (fd pn : ℕ) (t : List Entry) → IsKeyed t → IsKeyed (erase_entry fd pn t)
unfolding lookup erase_entry
erase_entry-IsKeyed fd pn [] k = tt
erase_entry-IsKeyed fd pn (e ∷ es) k =
    ground (arith, erase_entry-IsKeyed fd pn es k.1, lookup-erase_entry fd pn e.fd e.pn es k.1)
