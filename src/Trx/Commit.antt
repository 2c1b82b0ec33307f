-- ===== src/Trx/Commit.antt =====
-- What `commit` and `rollback` of trx.cpp make of the tables.
use atangyldb.Base.{ℕ, ◌≡◌, ◌&&◌, some, if◌then◌else◌, ◌==◌}
use atangyldb.Memory.{Bytes}
use atangyldb.Rc.{Result, ok}
use atangyldb.Trx.{Rid, same_rid, OperationType, Operation, Trx}
use atangyldb.Trx.Table.{Tables}
use atangyldb.Trx.Settled.{IsTables, Effect}

module _ (tables : Tables) (laws : IsTables tables) where
  abbrev S : Type 0
  S = tables.State

  abbrev Settles : Effect → (S → ℕ → Operation → Result (Unit {0}) × S) → OperationType → Type 0
  Settles eff step type =
      (s : S) (table : ℕ) (rid : Rid) (b : Bytes)
      → laws.content s table rid ≡ some b
      → (s' : S) × (step s table (record { type = type; rid = rid }) ≡ (ok tt, s'))
        × ((t' : ℕ) (r' : Rid)
            → laws.content s' t' r'
              ≡ (if table == t' && same_rid rid r' then eff table type b else laws.content s t' r'))
