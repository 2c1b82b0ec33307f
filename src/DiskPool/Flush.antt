-- ===== src/DiskPool/Flush.antt =====
-- `flush_block` of disk_buffer_pool.cpp.
use atangyldb.Base.{ℕ, ◌*◌, ◌≡◌, refl, ◌∙◌, inl, inr, false, some, Option-cases}
use atangyldb.BufferManager.{Page}
use atangyldb.BufferManager.Table.{same_key}
use atangyldb.Rc.{ok}
use atangyldb.DiskPool.{Os, Pool, page_size, frame_of, with_frame}
use atangyldb.DiskPool.Calls.{write_block, flush_block}
use atangyldb.DiskPool.Coherent.{IsReliable}

module _ (os : Os) (device : IsReliable os) where
  abbrev P : Type 0
  P = Pool os.State

  -- `flush_block` succeeds, stores the page of the frame under its own number, keeps every other
  -- stored page, and changes nothing in the pool but the dirty mark.
  pub flush_block-stores :
      (f : ℕ) (p : P)
      → (s : os.State) × (flush_block os f p
          ≡ (ok tt, with_frame (record p { sys = s }) f (record (frame_of p f) { dirty = false })))
        × (device.stored s (frame_of p f).file_desc (frame_of p f).page.page_num
            ≡ some (frame_of p f).page)
        × ((fd pn : ℕ) (page : Page)
            → same_key (frame_of p f).file_desc (frame_of p f).page.page_num fd pn ≡ false
            → device.stored p.sys fd pn ≡ some page
            → device.stored s fd pn ≡ some page)
  unfolding flush_block write_block
  flush_block-stores f p =
      let frame = frame_of p f in
      let fd : ℕ = frame.file_desc in
      let pn : ℕ = frame.page.page_num in
      elim (Option-cases (os.sys_lseek p.sys fd (pn * page_size))) [
        | inl e ↦ absurd (device.seeks p.sys fd (pn * page_size) e)
        | inr (s, e) ↦
            let at = device.lseek_moves p.sys s fd (pn * page_size) e in
            (
              (os.sys_write s fd frame.page).1,
              rw (e, flush_block, device.writes s fd frame.page) refl,
              device.write_stored s fd pn frame.page at,
              λ fd' pn' page other h.
                  device.write_keeps s fd pn fd' pn' frame.page page at other
                    (device.lseek_keeps p.sys s fd (pn * page_size) fd' pn' e ∙ h),
            )
      ]
