-- ===== src/BplusTree/Scanner.antt =====
-- BplusTreeScanner of bplus_tree.h and bplus_tree.cpp.
use atangyldb.Base.{
  ℕ, zero, suc, ◌+◌, ◌-◌, Bool, true, false, Option, none, some, if◌then◌else◌, ◌==◌, ltb, leb,
}
use atangyldb.Memory.{Bytes}
use atangyldb.Rc.{
  Result, ok, err, undefined, record_openned, record_closed, record_eof, record_scanclosed,
  record_no_more_idx_in_mem,
}
use atangyldb.Trx.{Rid}
use atangyldb.BplusTree.{IndexPool, Floats, Index, Key, CompOp, no_op, get_page, unpin}
use atangyldb.BplusTree.Arrays.{scan_until, put}
use atangyldb.BplusTree.Compare.{satisfy_condition}
use atangyldb.BplusTree.Node.{next_leaf}
use atangyldb.BplusTree.Search.{find_first_index_satisfied}

-- The fields; a -1 is `none`. `page_handles` has the pages that are pinned.
pub record Scanner : Type 0 where
  pub opened : Bool
  pub comp_op : CompOp
  pub value : Bytes
  pub num_fixed_pages : Option ℕ
  pub pinned_page_count : ℕ
  pub page_handles : ℕ → ℕ
  pub next_index_of_page_handle : Option ℕ
  pub index_in_node : Option ℕ
  pub next_page_num : Option ℕ

-- The constructor.
abbrev pub new_scanner : Scanner
new_scanner = record {
  opened = false;
  comp_op = no_op;
  value = λ _. 0;
  num_fixed_pages = none;
  pinned_page_count = 0;
  page_handles = λ _. 0;
  next_index_of_page_handle = none;
  index_in_node = none;
  next_page_num = none;
}

unfoldable pub close : Scanner → Result (Unit {0}) × Scanner
close sc = if sc.opened then (ok tt, record sc { opened = false }) else (err record_scanclosed, sc)

module _ (pool : IndexPool) (fl : Floats) where
  abbrev pub I : Type 0
  I = Index pool.State

  -- `open`, with the limits of the search for the first entry.
  unfoldable pub open_scan : ℕ → ℕ → CompOp → Bytes → Scanner → I → Result (Unit {0}) × Scanner × I
  unfolding find_first_index_satisfied
  open_scan levels leaves op value sc t =
      let asked = record sc { comp_op = op; value = value } in
      let ready = record asked {
        num_fixed_pages = some 1;
        next_index_of_page_handle = some 0;
        pinned_page_count = 0;
        opened = true;
      } in
      let (found, t') = find_first_index_satisfied pool fl levels leaves op value t in
      if sc.opened then (err record_openned, sc, t) else elim found [
        | ok (pn, i) ↦ (ok tt, record ready { next_page_num = some pn; index_in_node = some i }, t')
        | err record_eof ↦ (ok tt, record ready { next_page_num = none; index_in_node = none }, t')
        | err e ↦ (err e, asked, t')
        | undefined ↦ (undefined, asked, t')
      ]

  abbrev pub satisfies : Scanner → I → Key → Bool
  satisfies sc t key =
      let h = t.file_header in
      satisfy_condition fl sc.comp_op h.attr_type h.attr_length key.attr sc.value

  -- The loops of `get_next_idx_in_memory`, with `n` pinned pages left to look at.
  unfoldable pub look : ℕ → Scanner → I → Result Rid × Scanner × I
  look zero sc t = (err record_no_more_idx_in_mem, sc, t)
  look (suc n) sc t = elim sc.next_index_of_page_handle [
    | none ↦ (undefined, sc, t)
    | some k ↦ elim sc.index_in_node [
      | none ↦ (undefined, sc, t)
      | some i ↦
          let node = (pool.page_at t.pool t.file_id (sc.page_handles k)).node in
          let test = λ (j : ℕ). satisfies sc t (node.keys j) in
          let pos = scan_until test (node.key_num - i) i in
          let later =
            look n (record sc { next_index_of_page_handle = some (k + 1); index_in_node = some 0 })
              t in
          if ltb pos node.key_num
          then (ok (node.rids pos), record sc { index_in_node = some (pos + 1) }, t)
          else later
    ]
  ]

  unfoldable pub get_next_idx_in_memory : Scanner → I → Result Rid × Scanner × I
  unfolding look
  get_next_idx_in_memory sc t =
      let past : Bool = elim sc.next_index_of_page_handle [
        | none ↦ false
        | some k ↦ leb sc.pinned_page_count k
      ] in
      let ended : Bool = elim sc.next_page_num [
        | none ↦ elim sc.index_in_node [ none ↦ true | some _ ↦ false ]
        | some _ ↦ false
      ] in
      let left : ℕ = elim sc.next_index_of_page_handle [
        | none ↦ sc.pinned_page_count
        | some k ↦ sc.pinned_page_count - k
      ] in
      if past
      then (err record_no_more_idx_in_mem, sc, t)
      else if ended
      then (err record_eof, sc, t)
      else look left sc t

  -- The pinned pages from the `i`th on are given back.
  unfoldable pub unpin_from : ℕ → ℕ → Scanner → I → I
  unfolding unpin
  unpin_from zero i sc t = t
  unpin_from (suc n) i sc t = unpin_from n (i + 1) sc (unpin pool (sc.page_handles i) t).1

  -- The loop that pins `n` leaves more.
  unfoldable pub pin_leaves : ℕ → Scanner → I → Result (Unit {0}) × Scanner × I
  unfolding get_page
  pin_leaves zero sc t = (ok tt, sc, t)
  pin_leaves (suc n) sc t = elim sc.next_page_num [
    | none ↦ (ok tt, sc, t)
    | some pn ↦
        let (r, t') = get_page pool pn t in
        let node = (pool.page_at t'.pool t'.file_id pn).node in
        let pinned = record sc {
          page_handles = put sc.page_handles sc.pinned_page_count pn;
          pinned_page_count = sc.pinned_page_count + 1;
          next_page_num = some (next_leaf t'.file_header.order node);
        } in
        let more = pin_leaves n pinned t' in
        let got : Result (Unit {0}) × Scanner × I = elim r [
          | ok _ ↦ more
          | err e ↦ (err e, sc, t')
          | undefined ↦ (undefined, sc, t')
        ] in
        if pn == 0 then (ok tt, sc, t) else got
  ]

  unfoldable pub find_idx_pages : Scanner → I → Result (Unit {0}) × Scanner × I
  unfolding unpin_from pin_leaves
  find_idx_pages sc t =
      let free = record sc { next_index_of_page_handle = some 0; pinned_page_count = 0 } in
      let rounds : ℕ = elim sc.num_fixed_pages [ none ↦ 0 | some n ↦ n ] in
      let (r, sc', t') = pin_leaves rounds free (unpin_from sc.pinned_page_count 0 sc t) in
      let counted : Result (Unit {0}) = elim r [
        | ok _ ↦ if sc'.pinned_page_count == 0 then err record_eof else ok tt
        | err e ↦ err e
        | undefined ↦ undefined
      ] in
      if sc.opened then (counted, sc', t') else (err record_closed, sc, t)

  -- `next_entry` looks at the pinned pages, and at the next leaves once if these have no more.
  unfoldable pub after_pages : Result (Unit {0}) × Scanner × I → Result Rid × Scanner × I
  unfolding get_next_idx_in_memory
  after_pages (ok _, sc, t) = get_next_idx_in_memory sc t
  after_pages (err e, sc, t) = (err e, sc, t)
  after_pages (undefined, sc, t) = (undefined, sc, t)

  unfoldable pub or_next_pages : Result Rid × Scanner × I → Result Rid × Scanner × I
  unfolding find_idx_pages after_pages
  or_next_pages (ok rid, sc, t) = (ok rid, sc, t)
  or_next_pages (err record_no_more_idx_in_mem, sc, t) = after_pages (find_idx_pages sc t)
  or_next_pages (err e, sc, t) = (err e, sc, t)
  or_next_pages (undefined, sc, t) = (undefined, sc, t)

  unfoldable pub next_entry : Scanner → I → Result Rid × Scanner × I
  unfolding get_next_idx_in_memory or_next_pages
  next_entry sc t =
      if sc.opened then or_next_pages (get_next_idx_in_memory sc t) else (err record_closed, sc, t)
