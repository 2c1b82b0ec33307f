-- ===== src/Tests/Device.antt =====
-- A device on which the buffer pool can rely: files as maps from page numbers to pages.
use atangyldb.Base.{
  ℕ, ◌*◌, ◌/◌, ◌≡◌, refl, sym, ap, ◌∙◌, ==-self, true, ◌&&◌, Option, none, some, if◌then◌else◌,
  ◌==◌, arith,
}
use atangyldb.BufferManager.{Page}
use atangyldb.DiskPool.{Os, page_size}
use atangyldb.DiskPool.Files.{header_page}
use atangyldb.DiskPool.Coherent.{IsReliable}

pub record Disk : Type 0 where
  pub files : ℕ → ℕ → Option Page
  pub offsets : ℕ → ℕ

unfoldable pub moved : (ℕ → ℕ) → ℕ → ℕ → ℕ → ℕ
moved m fd off g = if fd == g then off else m g

unfoldable pub put_page : (ℕ → ℕ → Option Page) → ℕ → ℕ → Page → ℕ → ℕ → Option Page
put_page m fd pn page g i = if fd == g && pn == i then some page else m g i

-- Every file opens on the descriptor 3.
abbrev pub disk_os : Os
disk_os = record {
  State = Disk;
  sys_open = λ s _. (some 3, s);
  sys_create = λ s _. (some 3, s);
  sys_close = λ s _. (true, s);
  sys_unlink = λ s _. (true, s);
  sys_lseek = λ s fd off. some (record s { offsets = moved s.offsets fd off });
  sys_read = λ s fd. (s.files fd (s.offsets fd / page_size), s);
  sys_write =
      λ s fd page. (true, record s { files = put_page s.files fd (s.offsets fd / page_size) page });
  sys_now = λ _. 0;
}

pub some_inj {ℓ} : {A : Type ℓ} {a b : A} → some a ≡ some b → a ≡ b
some_inj e = cc

pub at_page : (off pn : ℕ) → off ≡ pn * page_size → off / page_size ≡ pn
at_page off pn e = omega arith

unfoldable pub disk_os-IsReliable : IsReliable disk_os
unfolding moved put_page
disk_os-IsReliable = record {
  stored = λ s. s.files;
  position = λ s. s.offsets;
  seeks = λ s fd off e. absurd (cc);
  lseek_moves =
      λ s s' fd off e. ap (λ (d : Disk). d.offsets fd) (sym (some_inj e)) ∙ rw ==-self refl;
  lseek_keeps = λ s s' fd off fd' pn e. ap (λ (d : Disk). d.files fd' pn) (sym (some_inj e));
  read_stored = λ s fd pn e. let q = at_page (s.offsets fd) pn e in rw q refl;
  read_keeps = λ s fd fd' pn. refl;
  writes = λ s fd page. refl;
  write_stored =
      λ s fd pn page e. let q = at_page (s.offsets fd) pn e in rw (q, ==-self fd, ==-self pn) refl;
  write_keeps =
      λ s fd pn fd' pn' page other e n h. let q = at_page (s.offsets fd) pn e in rw (q, n) h;
}

-- The file on descriptor 3 has a header page and nothing else.
abbrev pub one_file : Disk
one_file = record {
  files = λ fd pn. if fd == 3 && pn == 0 then some header_page else none;
  offsets = λ _. 0;
}
