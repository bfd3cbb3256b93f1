-- ===== src/Migration/Reverse.antt =====
-- Undoing one operation of a migration.
use mathlib.Core.Path.{subst}
use relationship_os.Base.{
  String, true, false, ◌&&◌, not, ◌≡◌, refl, sym, ◌∙◌, inl, inr, Bool-cases, Option, none, some,
  List, [], ◌∷◌, ◌++◌, arith, eq_refl, select, update_where, exists_row,
}
use relationship_os.Migration.{
  Constraint, foreign_key, Index, Table, Schema, Op, create_table, create_index, drop_index,
  drop_table, is_table, is_index, has_table, has_index, refers_to, is_referenced, all_resolve,
  add_index, remove_index, apply,
}

-- The operation that takes a creation back; a removal cannot be.
abbrev pub undo : Op → Option Op
undo (create_table name columns constraints) = some (drop_table name)
undo (create_index name table columns is_unique) = some (drop_index name table)
undo (drop_index name table) = none
undo (drop_table name) = none

-- Every foreign key names a table that is there.
abbrev pub IsClosed : Schema → Type 0
IsClosed s = (name : String) → is_referenced name s ≡ true → has_table name s ≡ true

select-others :
    (name : String) (s : Schema)
    → has_table name s ≡ false
    → select (λ t. not (is_table name t)) s ≡ s
select-others name [] h = refl
select-others name (t ∷ s) h = ground (arith, select-others name s)

remove-add_index :
    (i : Index) (is : List Index)
    → exists_row (is_index i.name) is ≡ false
    → select (λ j. not (is_index i.name j)) (is ++ (i ∷ [])) ≡ is
remove-add_index i [] h = ground (arith, eq_refl i.name)
remove-add_index i (j ∷ is) h = ground (arith, remove-add_index i is)

update-index :
    (i : Index) (table : String) (s : Schema)
    → has_index i.name s ≡ false
    → update_where
        (is_table table)
        (remove_index i.name)
        (update_where (is_table table) (add_index i) s)
      ≡ s
update-index i table [] h = refl
update-index i table (t ∷ s) h =
    ground (arith, remove-add_index i t.indexes, update-index i table s)

exists-added : (i : Index) (is : List Index) → exists_row (is_index i.name) (is ++ (i ∷ [])) ≡ true
exists-added i [] = ground (arith, eq_refl i.name)
exists-added i (j ∷ is) = ground (arith, exists-added i is)

added_found :
    (i : Index) (table : String) (s : Schema)
    → has_table table s ≡ true
    → exists_row
        (λ t. is_table table t && exists_row (is_index i.name) t.indexes)
        (update_where (is_table table) (add_index i) s)
      ≡ true
added_found i table [] h = absurd cc
added_found i table (t ∷ s) h = ground (arith, exists-added i t.indexes, added_found i table s)

tables_kept :
    (name table : String) (i : Index) (s : Schema)
    → has_table name (update_where (is_table table) (add_index i) s) ≡ has_table name s
tables_kept name table i [] = refl
tables_kept name table i (t ∷ s) = ground (arith, tables_kept name table i s)

references_kept :
    (name table : String) (i : Index) (s : Schema)
    → is_referenced name (update_where (is_table table) (add_index i) s) ≡ is_referenced name s
references_kept name table i [] = refl
references_kept name table i (t ∷ s) = ground (arith, references_kept name table i s)

resolved :
    (name : String) (cs : List Constraint) (s : Schema)
    → all_resolve s cs ≡ true
    → exists_row (refers_to name) cs ≡ true
    → has_table name s ≡ true
resolved name [] s h k = absurd cc
resolved name (foreign_key col table ∷ cs) s h k = ground (arith, resolved name cs s)
resolved name (_ ∷ cs) s h k = ground (arith, resolved name cs s)

undo-create_table :
    (table : Table) (s : Schema)
    → IsClosed s
    → has_table table.name s ≡ false
    → all_resolve s table.constraints ≡ true
    → (apply (drop_table table.name) (table ∷ s) ≡ some s) × IsClosed (table ∷ s)
unfolding apply
undo-create_table table s closed fresh resolve =
    let unnamed : exists_row (refers_to table.name) table.constraints ≡ false =
      elim (Bool-cases (exists_row (refers_to table.name) table.constraints)) [
        | inl h ↦ absurd (ground (arith, fresh, resolved table.name table.constraints s resolve h))
        | inr h ↦ h
      ] in
    let unused : is_referenced table.name s ≡ false =
      elim (Bool-cases (is_referenced table.name s)) [
        | inl h ↦ absurd (ground (arith, fresh, closed table.name h))
        | inr h ↦ h
      ] in
    (
      ground (arith, unnamed, unused, eq_refl table.name, select-others table.name s fresh),
      λ name h. elim (Bool-cases (exists_row (refers_to name) table.constraints)) [
        | inl k ↦ ground (arith, resolved name table.constraints s resolve k)
        | inr k ↦ ground (arith, h, k, closed name)
      ],
    )

undo-create_index :
    (i : Index) (table : String) (s : Schema)
    → IsClosed s
    → has_index i.name s ≡ false
    → has_table table s ≡ true
    → let s' = update_where (is_table table) (add_index i) s in
      (apply (drop_index i.name table) s' ≡ some s) × IsClosed s'
unfolding apply
undo-create_index i table s closed fresh there = (
  ground (arith, added_found i table s there, update-index i table s fresh),
  λ name h. tables_kept name table i s ∙ closed name (sym (references_kept name table i s) ∙ h),
)

some_injective : {A : Type 0} {a b : A} → some a ≡ some b → a ≡ b
some_injective h = cc

create_table-ok :
    (table : Table) (s s' : Schema)
    → table.indexes ≡ []
    → apply (create_table table.name table.columns table.constraints) s ≡ some s'
    → (has_table table.name s ≡ false) × (all_resolve s table.constraints ≡ true) × (table ∷ s ≡ s')
unfolding apply
create_table-ok table s s' bare done = ground (arith, bare)

create_index-ok :
    (i : Index) (table : String) (s s' : Schema)
    → apply (create_index i.name table i.columns i.is_unique) s ≡ some s'
    → (has_index i.name s ≡ false)
      × (has_table table s ≡ true)
      × (update_where (is_table table) (add_index i) s ≡ s')
unfolding apply
create_index-ok i table s s' done = ground arith

pub undo_one :
    (op u : Op) (s s' : Schema)
    → IsClosed s
    → undo op ≡ some u
    → apply op s ≡ some s'
    → (apply u s' ≡ some s) × IsClosed s'
undo_one (create_table name columns constraints) u s s' closed h done =
    let table : Table = record {
      name = name;
      columns = columns;
      constraints = constraints;
      indexes = [];
    } in
    let (fresh, resolve, same) = create_table-ok table s s' refl done in
    let same_op : drop_table name ≡ u = some_injective h in
    subst (λ (x : Op × Schema). (apply x.0 x.1 ≡ some s) × IsClosed x.1) (λ i. (same_op i, same i))
      (undo-create_table table s closed fresh resolve)
undo_one (create_index name table columns is_unique) u s s' closed h done =
    let index : Index = record { name = name; columns = columns; is_unique = is_unique } in
    let (fresh, there, same) = create_index-ok index table s s' done in
    let same_op : drop_index name table ≡ u = some_injective h in
    subst (λ (x : Op × Schema). (apply x.0 x.1 ≡ some s) × IsClosed x.1) (λ i. (same_op i, same i))
      (undo-create_index index table s closed fresh there)
undo_one (drop_index name table) u s s' closed h done = absurd cc
undo_one (drop_table name) u s s' closed h done = absurd cc
