-- ===== src/LruReplacer/Members.antt =====
-- Which frames the replacer of lru_replacer.cpp holds after each call.
use atangyldb.Base.{
  ℕ, ◌<◌, ◌≡◌, ◌≢◌, List, ◌∷◌, refl, sym, ap, ◌∙◌, ◌⊎◌, inl, inr, true, false, Option, none, some,
  if◌then◌else◌, ◌==◌, arith, Bool-cases, Option-cases, length, ltb,
}
use atangyldb.Base.Lists.{contains}
use atangyldb.LruReplacer.{
  Node, LruReplacer, back, pop_back, evict, victim, pin, enlist, trim, unpin,
}
use atangyldb.LruReplacer.Nodes.{
  frames, node_of, contains-node_of, node_of-erase_node, node_of-pop_back, node_of-back, IsDistinct,
}
use atangyldb.LruReplacer.Refine.{IsValid, view, enlist-Refines}

-- Two lists with the same frames, as far as `node_of` sees, contain the same.
held_like :
    (f g : ℕ) (ns ms : List Node)
    → node_of g ms ≡ (if f == g then none else node_of g ns)
    → contains g (frames ms) ≡ (if f == g then false else contains g (frames ns))
held_like f g ns ms e = rw (contains-node_of g ms, contains-node_of g ns, e) (ground arith)

absent_same :
    (f g : ℕ) (ns : List Node)
    → node_of f ns ≡ none
    → node_of g ns ≡ (if f == g then none else node_of g ns)
absent_same f g ns e = ground arith

pub contains-pin :
    (r : LruReplacer) (f g : ℕ)
    → IsValid r
    → contains g (view (pin r f)) ≡ (if f == g then false else contains g (view r))
unfolding pin
contains-pin r f g v = elim (Option-cases (r.cache_map f)) [
  | inl e ↦
      let absent : node_of f r.cache_list ≡ none = ground (arith, v.links.linked f) in
      rw (e, pin) (held_like f g r.cache_list r.cache_list (absent_same f g r.cache_list absent))
  | inr (it, e) ↦
      let at : node_of f r.cache_list ≡ some it = ground (arith, v.links.linked f) in
      rw (e, pin)
        (held_like f g r.cache_list _
          (node_of-erase_node f it g r.next_id r.cache_list v.links.fresh v.links.distinct at))
]

held : (o : Option ℕ) → o ≢ none → elim o [ none ↦ false | some _ ↦ true ] ≡ true
held none h = absurd (h refl)
held (some it) h = refl

pub contains-victim :
    (r : LruReplacer) (f g : ℕ)
    → IsValid r
    → (victim r).0 ≡ some f
    → (contains f (view r) ≡ true)
      × (contains g (view (victim r).1) ≡ (if f == g then false else contains g (view r)))
unfolding victim evict
contains-victim r f g v e = elim (Bool-cases (r.size == 0)) [
  | inl empty ↦ let no_frame : none ≡ some f = rw empty at e in absurd (cc)
  | inr some_left ↦
      let found : some (back r.cache_list) ≡ some f = rw some_left at e in
      let f' : back r.cache_list ≡ f = cc in
      let filled : 0 < length r.cache_list = ground (arith, v.links.counted) in
      (
        rw (contains-node_of f r.cache_list)
            (held (node_of f r.cache_list) (rw f' at (node_of-back r.cache_list filled))),
        rw some_left (
            held_like f g r.cache_list (pop_back r.cache_list)
              (rw f' at (node_of-pop_back g r.cache_list v.links.distinct))),
      )
]

smaller :
    (g : ℕ) (ns : List Node)
    → IsDistinct ns
    → contains g (frames (pop_back ns)) ≡ true
    → contains g (frames ns) ≡ true
smaller g ns u e =
    let law = held_like (back ns) g ns (pop_back ns) (node_of-pop_back g ns u) in ground arith

contains-enlist :
    (r : LruReplacer) (f g : ℕ)
    → IsValid r
    → contains g (view (enlist r f)) ≡ true
    → (f ≡ g) ⊎ (contains g (view r) ≡ true)
contains-enlist r f g v e =
    let (links, few, same, list) = enlist-Refines r f v in
    elim (Bool-cases (contains f (view r))) [
      | inl in_list ↦ inr (ap (contains g) (sym (list ∙ rw in_list)) ∙ e)
      | inr new ↦
          let both : contains g (f ∷ view r) ≡ true = ap (contains g) (sym (list ∙ rw new)) ∙ e in
          unfold contains in ground arith
    ]

pub contains-unpin :
    (r : LruReplacer) (f g : ℕ)
    → IsValid r
    → contains g (view (unpin r f)) ≡ true
    → (f ≡ g) ⊎ (contains g (view r) ≡ true)
unfolding unpin trim evict
contains-unpin r f g v e =
    let (links, few, same, list) = enlist-Refines r f v in
    elim (Bool-cases (ltb (enlist r f).capacity (enlist r f).size)) [
      | inl over ↦
          contains-enlist r f g v (smaller g (enlist r f).cache_list links.distinct (rw over at e))
      | inr fits ↦ contains-enlist r f g v (rw fits at e)
    ]
