-- ===== src/Migration/Undo.antt =====
-- Undoing a whole migration.
use relationship_os.Base.{
  String, Bool, true, false, Bool-cases, if◌then◌else◌, All, ◌≡◌, refl, sym, ap, ◌∙◌, inl, inr,
  Option-cases, Option, none, some, List, [], ◌∷◌, ◌++◌, arith,
}
use relationship_os.Migration.Upgrade.{upgrade}
use relationship_os.Migration.Downgrade.{downgrade}
use relationship_os.Migration.Reverse.{undo, IsClosed, undo_one}
use relationship_os.Migration.{Schema, Op, apply, run, created_types, Database, execute, migrate}

-- The operations that take a migration of creations back, the last first.
abbrev pub undo_all : List Op → Option (List Op)
undo_all [] = some []
undo_all (op ∷ ops) = elim (undo op) [
  | none ↦ none
  | some u ↦ elim (undo_all ops) [ none ↦ none | some us ↦ some (us ++ (u ∷ [])) ]
]

run-append : (us vs : List Op) (s s' : Schema) → run us s ≡ some s' → run (us ++ vs) s ≡ run vs s'
unfolding run
run-append [] vs s s' h = ground (arith, h)
run-append (u ∷ us) vs s s' h = elim (Option-cases (apply u s)) [
  | inl e ↦ absurd (ground (arith, e, h))
  | inr (t, e) ↦ ground (arith, e, run-append us vs t s' (ground (arith, e, h)))
]

run-undo_all :
    (ops us : List Op) (s s' : Schema)
    → IsClosed s
    → undo_all ops ≡ some us
    → run ops s ≡ some s'
    → run us s' ≡ some s
unfolding run
run-undo_all [] us s s' closed h done = ground arith
run-undo_all (op ∷ ops) us s s' closed h done = elim (Option-cases (undo op)) [
  | inl e ↦ absurd (ground (arith, e, h))
  | inr (u, e) ↦ elim (Option-cases (undo_all ops)) [
    | inl f ↦ absurd (ground (arith, e, f, h))
    | inr (vs, f) ↦ elim (Option-cases (apply op s)) [
      | inl g ↦ absurd (ground (arith, g, done))
      | inr (t, g) ↦
          let (back, onward) = undo_one op u s t closed e g in
          let rest = run-undo_all ops vs t s' onward f (ground (arith, g, done)) in
          let parts : vs ++ (u ∷ []) ≡ us = ground (arith, e, f, h) in
          ap (λ x. run x s') (sym parts) ∙ run-append vs (u ∷ []) s' t rest ∙ ground (arith, back)
    ]
  ]
]

upgrade-undo : undo_all upgrade ≡ some downgrade
upgrade-undo = refl

run-downgrade-upgrade :
    (s s' : Schema) → IsClosed s → run upgrade s ≡ some s' → run downgrade s' ≡ some s
run-downgrade-upgrade s s' closed done =
    run-undo_all upgrade downgrade s s' closed upgrade-undo done

-- The types of a migration, the last first.
abbrev types_of : Bool → List Op → List String → List String
types_of has_enums [] types = types
types_of has_enums (op ∷ ops) types =
    types_of has_enums ops (if has_enums then created_types op ++ types else types)

migrate-run :
    (has_enums : Bool) (ops : List Op) (d d' : Database)
    → migrate has_enums ops d ≡ some d'
    → (run ops d.tables ≡ some d'.tables) × (d'.types ≡ types_of has_enums ops d.types)
unfolding migrate execute run
migrate-run has_enums [] d d' h = ground (arith, h)
migrate-run has_enums (op ∷ ops) d d' h = elim (Option-cases (execute has_enums op d)) [
  | inl e ↦ absurd (ground (arith, e, h))
  | inr (t, e) ↦ ground (arith, h, e, migrate-run has_enums ops t d')
]

run-migrate :
    (has_enums : Bool) (ops : List Op) (s s' : Schema) (types : List String)
    → All (λ op. created_types op ≡ []) ops
    → run ops s ≡ some s'
    → migrate has_enums ops (record { tables = s; types = types })
      ≡ some (record { tables = s'; types = types })
unfolding migrate execute run
run-migrate has_enums [] s s' types none_made h = ground (arith, h)
run-migrate has_enums (op ∷ ops) s s' types none_made h = elim (Option-cases (apply op s)) [
  | inl e ↦ absurd (ground (arith, e, h))
  | inr (t, e) ↦
      let rest = run-migrate has_enums ops t s' types none_made.1 in
      elim (Bool-cases has_enums) [
        | inl b ↦ ground (arith, h, e, b, none_made.0, rest)
        | inr b ↦ ground (arith, h, e, b, none_made.0, rest)
      ]
]

downgrade_types : All (λ op. created_types op ≡ []) downgrade
downgrade_types = search

upgrade_types :
    (has_enums : Bool) (types : List String)
    → types_of has_enums upgrade types ≡ (if has_enums then "userrole" ∷ types else types)
upgrade_types true types = refl
upgrade_types false types = refl

-- Where the upgrade succeeds on a database whose foreign keys all name tables that are there, the
-- downgrade succeeds after it and leaves the tables and the indexes as they were; of the types, on
-- a database that has types of enumerations, it leaves that of the roles behind, and no other.
pub migrate-downgrade-upgrade :
    (has_enums : Bool) (d d' : Database)
    → IsClosed d.tables
    → migrate has_enums upgrade d ≡ some d'
    → migrate has_enums downgrade d'
      ≡ some (record {
        tables = d.tables;
        types = if has_enums then "userrole" ∷ d.types else d.types;
      })
migrate-downgrade-upgrade has_enums d d' closed done =
    let (built, made) = migrate-run has_enums upgrade d d' done in
    run-migrate has_enums downgrade d'.tables d.tables d'.types downgrade_types
      (run-downgrade-upgrade d.tables d'.tables closed built)
    ∙ ap (λ types. some (record { tables = d.tables; types = types }))
        (made ∙ upgrade_types has_enums d.types)
