-- ===== src/Hub/Rooms.antt =====
-- The rooms and the sockets' metadata agree.
use relationship_os.Base.{
  ℕ, String, true, false, ◌≡◌, refl, sym, ◌∙◌, none, some, List, [], ◌∷◌, arith, ◌==◌, eqb,
  Option-cases, eq_refl, eq_of_test, Bool-cases, ◌⊎◌, inl, inr, ap, if◌then◌else◌,
}
use relationship_os.Hub.{Metadata, ConnectionManager, has, discard, room_of, register, unregister}

-- A socket in a room is registered for that room.
pub record IsIndexed (m : ConnectionManager) : Type 0 where
  pub indexed :
      (conv_id : String) (ws : ℕ)
      → has ws (room_of m conv_id) ≡ true
      → (meta : Metadata) × (m.socket_metadata ws ≡ some meta) × (meta.conversation_id ≡ conv_id)

has-discard_same : (ws : ℕ) (room : List ℕ) → has ws (discard ws room) ≡ false
has-discard_same ws [] = refl
has-discard_same ws (x ∷ xs) = ground (arith, has-discard_same ws xs)

has-discard : (ws w : ℕ) (room : List ℕ) → has w (discard ws room) ≡ true → has w room ≡ true
has-discard ws w [] h = h
has-discard ws w (x ∷ xs) h = ground (arith, has-discard ws w xs)

-- The rooms after a socket has gone.
room_of-unregister :
    (ws : ℕ) (m : ConnectionManager) (meta : Metadata) (conv_id : String)
    → m.socket_metadata ws ≡ some meta
    → room_of (unregister ws m).1 conv_id ≡ (
        if conv_id == meta.conversation_id
        then discard ws (room_of m conv_id)
        else room_of m conv_id)
unfolding unregister
room_of-unregister ws m meta conv_id h = ground (arith, eq_of_test conv_id meta.conversation_id)

unregister-leaves_none :
    (ws : ℕ) (m : ConnectionManager) (conv_id : String)
    → IsIndexed m
    → m.socket_metadata ws ≡ none
    → has ws (room_of (unregister ws m).1 conv_id) ≡ false
unfolding unregister
unregister-leaves_none ws m conv_id inv e = elim (Bool-cases (has ws (room_of m conv_id))) [
  | inl h ↦ let (meta, f, g) = inv.indexed conv_id ws h in absurd cc
  | inr h ↦ ground (arith, h)
]

unregister-leaves_some :
    (ws : ℕ) (m : ConnectionManager) (conv_id : String) (meta : Metadata)
    → IsIndexed m
    → m.socket_metadata ws ≡ some meta
    → has ws (room_of (unregister ws m).1 conv_id) ≡ false
unregister-leaves_some ws m conv_id meta inv e = elim (Bool-cases (has ws (room_of m conv_id))) [
  | inl h ↦
      let (found, f, g) = inv.indexed conv_id ws h in
      ground (
        arith,
        room_of-unregister ws m meta conv_id e,
        has-discard_same ws (room_of m conv_id),
        eq_refl conv_id,
      )
  | inr h ↦
      ground
        (arith, room_of-unregister ws m meta conv_id e, has-discard_same ws (room_of m conv_id), h)
]

pub eqb_refl : (n : ℕ) → eqb n n ≡ true
eqb_refl n = ground arith

unregister-stays_none :
    (ws w : ℕ) (m : ConnectionManager) (conv_id : String)
    → m.socket_metadata ws ≡ none
    → has w (room_of (unregister ws m).1 conv_id) ≡ true
    → has w (room_of m conv_id) ≡ true
unfolding unregister
unregister-stays_none ws w m conv_id e h = ground (arith, e, h)

-- Where the rooms and the metadata agree, a socket is in no room once it is unregistered.
pub unregister-leaves :
    (ws : ℕ) (m : ConnectionManager) (conv_id : String)
    → IsIndexed m
    → has ws (room_of (unregister ws m).1 conv_id) ≡ false
unregister-leaves ws m conv_id inv = elim (Option-cases (m.socket_metadata ws)) [
  | inl e ↦ unregister-leaves_none ws m conv_id inv e
  | inr (meta, e) ↦ unregister-leaves_some ws m conv_id meta inv e
]

pub unregister-stays :
    (ws w : ℕ) (m : ConnectionManager) (conv_id : String)
    → has w (room_of (unregister ws m).1 conv_id) ≡ true
    → has w (room_of m conv_id) ≡ true
unregister-stays ws w m conv_id h = elim (Option-cases (m.socket_metadata ws)) [
  | inl e ↦ unregister-stays_none ws w m conv_id e h
  | inr (meta, e) ↦
      ground
        (arith, room_of-unregister ws m meta conv_id e, has-discard ws w (room_of m conv_id), h)
]

metadata-unregister :
    (ws w : ℕ) (m : ConnectionManager)
    → eqb w ws ≡ false
    → (unregister ws m).1.socket_metadata w ≡ m.socket_metadata w
unfolding unregister
metadata-unregister ws w m h = ground (arith, h)

pub unregister-IsIndexed :
    (ws : ℕ) (m : ConnectionManager) → IsIndexed m → IsIndexed (unregister ws m).1
unregister-IsIndexed ws m inv = record {
  indexed = λ conv_id w h. elim (Bool-cases (eqb w ws)) [
    | inl e ↦ absurd (ground (arith, unregister-leaves ws m conv_id inv, e, h))
    | inr e ↦
        let (meta, f, g) = inv.indexed conv_id w (unregister-stays ws w m conv_id h) in
        (meta, metadata-unregister ws w m e ∙ f, g)
  ];
}

registers_same :
    (ws : ℕ) (meta : Metadata) (m : ConnectionManager) (conv_id : String)
    → IsIndexed m
    → ((old : Metadata)
        → m.socket_metadata ws ≡ some old
        → old.conversation_id ≡ meta.conversation_id)
    → has ws (room_of (register ws meta m) conv_id) ≡ true
    → meta.conversation_id ≡ conv_id
unfolding register
registers_same ws meta m conv_id inv same h = elim (Bool-cases (conv_id == meta.conversation_id)) [
  | inl e ↦ sym (eq_of_test conv_id meta.conversation_id e)
  | inr e ↦ let (old, f, g) = inv.indexed conv_id ws (ground (arith, e, h)) in sym (same old f) ∙ g
]

registers_other :
    (ws w : ℕ) (meta : Metadata) (m : ConnectionManager) (conv_id : String)
    → eqb w ws ≡ false
    → has w (room_of (register ws meta m) conv_id) ≡ true
    → has w (room_of m conv_id) ≡ true
unfolding register
registers_other ws w meta m conv_id e h =
    ground (arith, e, h, eq_of_test conv_id meta.conversation_id)

metadata-register :
    (ws w : ℕ) (meta : Metadata) (m : ConnectionManager)
    → (register ws meta m).socket_metadata w ≡ (if eqb w ws then some meta else m.socket_metadata w)
unfolding register
metadata-register ws w meta m = refl

-- Where the rooms and the metadata agree, they still do after a socket has registered for a room,
-- if it was registered for no other.
pub register-IsIndexed :
    (ws : ℕ) (meta : Metadata) (m : ConnectionManager)
    → IsIndexed m
    → ((old : Metadata)
        → m.socket_metadata ws ≡ some old
        → old.conversation_id ≡ meta.conversation_id)
    → IsIndexed (register ws meta m)
register-IsIndexed ws meta m inv same = record {
  indexed = λ conv_id w h. elim (Bool-cases (eqb w ws)) [
    | inl e ↦
        let p : w ≡ ws = ground (arith, e) in
        (
          meta,
          ground (arith, metadata-register ws w meta m, e),
          registers_same ws meta m conv_id inv same
              (sym (ap (λ v. has v (room_of (register ws meta m) conv_id)) p) ∙ h),
        )
    | inr e ↦
        let (old, f, g) = inv.indexed conv_id w (registers_other ws w meta m conv_id e h) in
        (old, ground (arith, metadata-register ws w meta m, e, f), g)
  ];
}

-- A registration brings one socket into one room.
pub has-register :
    (ws w : ℕ) (meta : Metadata) (m : ConnectionManager) (conv_id : String)
    → has w (room_of (register ws meta m) conv_id) ≡ true
    → (has w (room_of m conv_id) ≡ true) ⊎ ((w ≡ ws) × (conv_id ≡ meta.conversation_id))
unfolding register
has-register ws w meta m conv_id h = elim (Bool-cases (conv_id == meta.conversation_id)) [
  | inl e ↦ elim (Bool-cases (eqb w ws)) [
    | inl f ↦ inr (ground (arith, f), eq_of_test conv_id meta.conversation_id e)
    | inr f ↦ inl (registers_other ws w meta m conv_id f h)
  ]
  | inr e ↦ inl (ground (arith, e, h))
]
