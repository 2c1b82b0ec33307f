-- ===== src/Trx/Loops.antt =====
-- The loops of `commit` and `rollback` in trx.cpp, over the tables and over the operations on one
-- table.
use atangyldb.Base.{
  ℕ, ◌≡◌, ◌≢◌, refl, sym, ap, ◌∙◌, inl, inr, false, ◌&&◌, Option, none, some, List, [], ◌∷◌,
  if◌then◌else◌, ◌==◌, arith, Bool-cases, ==-self, ==_iff,
}
use atangyldb.Memory.{Bytes}
use atangyldb.Rc.{Result, ok}
use atangyldb.Trx.{Rid, same_rid, undefined_type, Operation, TableOperations, find_rid, find_in}
use atangyldb.Trx.Log.{IsSetOfOperations, same_found}
use atangyldb.Trx.Table.{Tables, each_operation, each_table}
use atangyldb.Trx.Settled.{
  IsTables, Effect, settled, ArePresent, IsWithout, IsApplicable, rid_path, still_present,
}

module _ (tables : Tables) (laws : IsTables tables) where
  abbrev S : Type 0
  S = tables.State

  -- A step does to the record of its operation what the effect says, and nothing else.
  abbrev pub Does : Effect → (S → ℕ → Operation → Result (Unit {0}) × S) → Type 0
  Does eff step =
      (s : S) (table : ℕ) (o : Operation) (b : Bytes)
      → laws.content s table o.rid ≡ some b
      → o.type ≢ undefined_type
      → (s' : S) × (step s table o ≡ (ok tt, s'))
        × ((t' : ℕ) (r' : Rid)
            → laws.content s' t' r' ≡ (
                if table == t' && same_rid o.rid r'
                then eff table o.type b
                else laws.content s t' r'))

  module _ (eff : Effect) (step : S → ℕ → Operation → Result (Unit {0}) × S)
      (does : Does eff step) where
    joined :
        (table : ℕ) (o : Operation) (b : Bytes) (os : List Operation) (t' : ℕ) (r' : Rid)
        (c₀ c₁ : Option Bytes)
        → find_rid o.rid os ≡ none
        → c₁ ≡ (if table == t' && same_rid o.rid r' then eff table o.type b else c₀)
        → (table ≡ t' → o.rid ≡ r' → c₀ ≡ some b)
        → (if table == t' then settled eff table (find_rid r' os) c₁ else c₁)
          ≡ (if table == t' then settled eff table (find_rid r' (o ∷ os)) c₀ else c₀)
    unfolding find_rid
    joined table o b os t' r' c₀ c₁ alone step₁ here = elim (Bool-cases (table == t')) [
      | inr other ↦ rw (other, step₁, other) refl
      | inl same ↦ elim (Bool-cases (same_rid o.rid r')) [
        | inr apart ↦ rw (same, apart, step₁, same, apart) refl
        | inl hit ↦
            let gone : find_rid r' os ≡ none = sym (same_found o.rid r' os hit) ∙ alone in
            let c₀' : c₀ ≡ some b = here (ground arith) (rid_path o.rid r' hit) in
            rw (same, hit, step₁, same, hit, gone, c₀') refl
      ]
    ]

    -- The loop over the operations of one table.
    each_operation-law :
        (s : S) (table : ℕ) (os : List Operation)
        → IsSetOfOperations os
        → ArePresent (laws.content s table) os
        → (s' : S) × (each_operation tables step table os (ok tt, s) ≡ (ok tt, s'))
          × ((t' : ℕ) (r' : Rid)
              → laws.content s' t' r' ≡ (
                  if table == t'
                  then settled eff table (find_rid r' os) (laws.content s t' r')
                  else laws.content s t' r'))
    unfolding each_operation find_rid
    each_operation-law s table [] u h = (s, refl, λ t' r'. ground arith)
    each_operation-law s table (o ∷ os) u h =
        let ((b, there), known, more) = h in
        let (s₁, done, changed) = does s table o b there known in
        let kept : (r' : Rid)
            → same_rid o.rid r' ≡ false
            → laws.content s₁ table r' ≡ laws.content s table r' =
          λ r' apart. changed table r' ∙ rw (apart, ==-self table) refl in
        let rest =
          still_present (laws.content s table) (laws.content s₁ table) o.rid os kept u.0 more in
        let (s₂, run, settles) = each_operation-law s₁ table os u.1 rest in
        (
          s₂,
          ap (each_operation tables step table os) done ∙ run,
          λ t' r'.
              settles t' r'
              ∙ joined table o b os t' r' _ _ u.0 (changed t' r') λ p q.
                ap (λ t. laws.content s t r') (sym p) ∙ ap (laws.content s table) (sym q) ∙ there,
        )

    still-IsApplicable :
        (c c' : ℕ → Rid → Option Bytes) (table : ℕ) (ts : List TableOperations)
        → ((t' : ℕ) (r' : Rid) → (table == t') ≡ false → c' t' r' ≡ c t' r')
        → IsWithout table ts
        → IsApplicable c ts
        → IsApplicable c' ts
    still-IsApplicable c c' table [] same w a = tt
    still-IsApplicable c c' table (t ∷ ts) same w a =
        let apart : (table == t.table) ≡ false = ground (arith, w.0) in
        (
          a.0,
          a.1,
          all_present (c t.table) (c' t.table) t.operations (λ r'. same t.table r' apart) a.2,
          still-IsApplicable c c' table ts same w.1 a.3,
        )
      where
        all_present :
            (d d' : Rid → Option Bytes) (os : List Operation)
            → ((r' : Rid) → d' r' ≡ d r')
            → ArePresent d os
            → ArePresent d' os
        all_present d d' [] e h = tt
        all_present d d' (o ∷ os) e h = ((h.0.0, e o.rid ∙ h.0.1), h.1, all_present d d' os e h.2)

    absent :
        (t' : ℕ) (r' : Rid) (ts : List TableOperations) → IsWithout t' ts → find_in t' r' ts ≡ none
    unfolding find_in
    absent t' r' [] w = refl
    absent t' r' (t ∷ ts) w = rw w.0 (absent t' r' ts w.1)

    -- The loop over the tables.
    pub each_table-law :
        (s : S) (ts : List TableOperations)
        → IsApplicable (laws.content s) ts
        → (s' : S) × (each_table tables step ts (ok tt, s) ≡ (ok tt, s'))
          × ((t' : ℕ) (r' : Rid)
              → laws.content s' t' r' ≡ settled eff t' (find_in t' r' ts) (laws.content s t' r'))
    unfolding each_table find_in
    each_table-law s [] a = (s, refl, λ t' r'. refl)
    each_table-law s (t ∷ ts) a =
        let (s₁, done, settles) = each_operation-law s t.table t.operations a.1 a.2 in
        let kept = λ (t' : ℕ) (r' : Rid) (n : (t.table == t') ≡ false). settles t' r' ∙ rw n refl in
        let rest = still-IsApplicable (laws.content s) (laws.content s₁) t.table ts kept a.0 a.3 in
        let (s₂, run, after) = each_table-law s₁ ts rest in
        (
          s₂,
          ap (each_table tables step ts) done ∙ run,
          λ t' r'. after t' r' ∙ elim (Bool-cases (t.table == t')) [
            | inr other ↦ rw (other, kept t' r' other) refl
            | inl same ↦
                let e : t.table ≡ t' = (==_iff t.table t').0 same in
                let none_left : find_in t' r' ts ≡ none = absent t' r' ts (rw e at a.0) in
                rw (none_left, same) (settles t' r' ∙ rw (same, e) refl)
          ],
        )
