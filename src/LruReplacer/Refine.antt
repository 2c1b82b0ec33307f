-- ===== src/LruReplacer/Refine.antt =====
-- The replacer refines a list of distinct frame ids, the newest first.
use atangyldb.Base.{
  ℕ, ◌+◌, ◌≤◌, ◌<◌, ◌≡◌, refl, sym, ap, none, some, List, [], ◌∷◌, if◌then◌else◌, ◌==◌, ltb, arith,
  length, Option-cases, ==_iff, Bool-cases, inl, inr,
}
use atangyldb.Base.Lists.{contains}
use atangyldb.LruReplacer.{
  LruReplacer, update_map, new_replacer, evict, victim, pin, push_front, enlist, trim, unpin,
}
use atangyldb.LruReplacer.Nodes.{
  frames, remove, last, drop_last, node_of, Descending, IsDistinct, contains-node_of,
  erase_node-frames, length-erase_node, node_of-erase_node, erase_node-Descending,
  erase_node-IsDistinct, frames-pop_back, length-pop_back, node_of-pop_back, pop_back-Descending,
  pop_back-IsDistinct, length-frames, remove-absent,
}

-- Map and list agree, the node identities are distinct and used up, no frame stands twice, and
-- `size_` counts the nodes.
pub record IsLinked (r : LruReplacer) : Type 0 where
  pub linked : (f : ℕ) → r.cache_map f ≡ node_of f r.cache_list
  pub fresh : Descending r.next_id r.cache_list
  pub distinct : IsDistinct r.cache_list
  pub counted : r.size ≡ length r.cache_list

-- The invariant between calls.
pub record IsValid (r : LruReplacer) : Type 0 where
  pub links : IsLinked r
  pub bounded : r.size ≤ r.capacity

abbrev pub view : LruReplacer → List ℕ
view r = frames r.cache_list

evict-IsLinked : (r : LruReplacer) → 0 < r.size → IsLinked r → IsLinked (evict r)
unfolding evict update_map
evict-IsLinked r h l = record {
  linked = λ f. ground (arith, l.linked f, node_of-pop_back f r.cache_list l.distinct);
  fresh = pop_back-Descending r.next_id r.cache_list l.fresh;
  distinct = pop_back-IsDistinct r.cache_list l.distinct;
  counted = omega (arith, l.counted, length-pop_back r.cache_list);
}

view-evict : (r : LruReplacer) → view (evict r) ≡ drop_last (view r)
unfolding evict
view-evict r = (frames-pop_back r.cache_list).0

pinned-IsLinked :
    (r : LruReplacer) (f it : ℕ) → r.cache_map f ≡ some it → IsLinked r → IsLinked (pin r f)
unfolding pin update_map
pinned-IsLinked r f it e l =
    let e' : node_of f r.cache_list ≡ some it = ground (arith, l.linked f) in
    rw (e, pin)
      record {
        linked = λ g. ground (
          arith,
          l.linked g,
          node_of-erase_node f it g r.next_id r.cache_list l.fresh l.distinct e',
        );
        fresh = erase_node-Descending f it r.next_id r.cache_list l.fresh;
        distinct = erase_node-IsDistinct f it r.next_id r.cache_list l.fresh l.distinct e';
        counted =
            omega (arith, l.counted, length-erase_node f it r.cache_list r.next_id l.fresh e');
      }

-- What each method does to the list of frame ids.
unfoldable pub unpin_list : ℕ → ℕ → List ℕ → List ℕ
unpin_list capacity f xs =
    let ys = if contains f xs then xs else f ∷ xs in
    if ltb capacity (length ys) then drop_last ys else ys

-- The constructor makes a valid empty replacer.
pub new_replacer-IsValid : (n : ℕ) → IsValid (new_replacer n)
unfolding new_replacer node_of
new_replacer-IsValid n = record {
  links = record { linked = λ f. refl; fresh = tt; distinct = tt; counted = refl };
  bounded = omega arith;
}

-- `Pin` keeps the invariant, and takes the frame out of the list, wherever it stands.
pub pin-Refines :
    (r : LruReplacer) (f : ℕ) → IsValid r → IsValid (pin r f) × (view (pin r f) ≡ remove f (view r))
unfolding pin
pin-Refines r f v = elim (Option-cases (r.cache_map f)) [
  | inl e ↦
      let e' : node_of f r.cache_list ≡ none = ground (arith, v.links.linked f) in
      rw (e, pin) (v, sym (remove-absent f r.cache_list e'))
  | inr (it, e) ↦
      let e' : node_of f r.cache_list ≡ some it = ground (arith, v.links.linked f) in
      (
        record { links = pinned-IsLinked r f it e v.links; bounded = rw (e, pin) (omega arith) },
        rw (e, pin) (erase_node-frames f it r.next_id r.cache_list v.links.fresh e'),
      )
]

drop_last-empty : (xs : List ℕ) → length xs ≡ 0 → drop_last xs ≡ xs
unfolding drop_last
drop_last-empty [] h = refl
drop_last-empty (x ∷ xs) h = absurd (omega arith)

-- `Victim` fails on the empty list only. Otherwise it returns the oldest frame and takes it off
-- the list. The invariant holds afterwards.
pub victim-Refines :
    (r : LruReplacer)
    → IsValid r
    → IsValid (victim r).1
      × ((victim r).0 ≡ (if length (view r) == 0 then none else some (last (view r))))
      × (view (victim r).1 ≡ drop_last (view r))
unfolding victim
victim-Refines r v =
    let size : length (view r) ≡ r.size =
      omega (arith, length-frames r.cache_list, v.links.counted) in
    elim (Bool-cases (r.size == 0)) [
      | inl e ↦
          rw (e, size, e)
            (v, refl, sym (drop_last-empty (view r) (omega (arith, (==_iff r.size 0).0 e))))
      | inr e ↦
          rw (e, size, e)
            (
              record {
                links = evict-IsLinked r (ground arith) v.links;
                bounded = unfold evict in omega arith;
              },
              ap some (frames-pop_back r.cache_list).1,
              view-evict r,
            )
    ]

push_front-IsLinked :
    (r : LruReplacer) (f : ℕ) → r.cache_map f ≡ none → IsLinked r → IsLinked (push_front r f)
unfolding push_front update_map node_of
push_front-IsLinked r f e l = record {
  linked = λ g. ground (arith, l.linked g);
  fresh = (omega arith, l.fresh);
  distinct = (ground (arith, l.linked f), l.distinct);
  counted = omega (arith, l.counted);
}

pub enlist-Refines :
    (r : LruReplacer) (f : ℕ)
    → IsValid r
    → IsLinked (enlist r f)
      × ((enlist r f).size ≤ r.capacity + 1)
      × ((enlist r f).capacity ≡ r.capacity)
      × (view (enlist r f) ≡ (if contains f (view r) then view r else f ∷ view r))
unfolding enlist
enlist-Refines r f v = elim (Option-cases (r.cache_map f)) [
  | inl e ↦
      let e' : node_of f r.cache_list ≡ none = ground (arith, v.links.linked f) in
      rw (e, enlist, contains-node_of f r.cache_list, e')
        (
          push_front-IsLinked r f e v.links,
          unfold push_front in omega arith,
          unfold push_front in refl,
          unfold push_front frames in refl,
        )
  | inr (it, e) ↦
      let e' : node_of f r.cache_list ≡ some it = ground (arith, v.links.linked f) in
      rw (e, enlist, contains-node_of f r.cache_list, e') (v.links, omega arith, refl, refl)
]

trim-Refines :
    (r : LruReplacer)
    → IsLinked r
    → r.size ≤ r.capacity + 1
    → IsValid (trim r)
      × (view (trim r) ≡ (if ltb r.capacity (length (view r)) then drop_last (view r) else view r))
unfolding trim
trim-Refines r l le =
    let size : length (view r) ≡ r.size = omega (arith, length-frames r.cache_list, l.counted) in
    elim (Bool-cases (ltb r.capacity r.size)) [
      | inl e ↦
          rw (e, size, e)
            (
              record {
                links = evict-IsLinked r (ground arith) l;
                bounded = unfold evict in omega arith;
              },
              view-evict r,
            )
      | inr e ↦ rw (e, size, e) (record { links = l; bounded = ground arith }, refl)
    ]

-- `Unpin` puts a frame in front unless it is there already, drops the oldest frame if there are
-- more than the capacity, and keeps the invariant.
pub unpin-Refines :
    (r : LruReplacer) (f : ℕ)
    → IsValid r
    → IsValid (unpin r f) × (view (unpin r f) ≡ unpin_list r.capacity f (view r))
unfolding unpin unpin_list
unpin-Refines r f v =
    let (links, few, same, list) = enlist-Refines r f v in
    let (valid, cut) = trim-Refines (enlist r f) links (omega arith) in (valid, cc)
