-- ===== src/Hub/Broadcast.antt =====
-- Whom a broadcast reaches, and what it leaves.
use relationship_os.Base.{
  ℕ, String, Bool, true, false, ◌≡◌, refl, Option, List, [], ◌∷◌, arith, eqb, not, ◌&&◌, Bool-cases,
  inl, inr,
}
use relationship_os.Hub.{
  ConnectionManager, has, room_of, unregister, send_all, broadcast_to_room, unregister_all,
  is_excluded,
}
use relationship_os.Hub.Rooms.{
  IsIndexed, eqb_refl, unregister-leaves, unregister-IsIndexed, unregister-stays,
}

unregister_all-IsIndexed :
    (dead : List ℕ) (m : ConnectionManager) → IsIndexed m → IsIndexed (unregister_all dead m)
unfolding unregister_all
unregister_all-IsIndexed [] m inv = inv
unregister_all-IsIndexed (ws ∷ dead) m inv =
    unregister_all-IsIndexed dead (unregister ws m).1 (unregister-IsIndexed ws m inv)

pub unregister_all-stays :
    (dead : List ℕ) (w : ℕ) (m : ConnectionManager) (conv_id : String)
    → has w (room_of (unregister_all dead m) conv_id) ≡ true
    → has w (room_of m conv_id) ≡ true
unfolding unregister_all
unregister_all-stays [] w m conv_id h = h
unregister_all-stays (ws ∷ dead) w m conv_id h =
    unregister-stays ws w m conv_id (unregister_all-stays dead w (unregister ws m).1 conv_id h)

unregister_all-leaves :
    (dead : List ℕ) (w : ℕ) (m : ConnectionManager) (conv_id : String)
    → IsIndexed m
    → has w dead ≡ true
    → has w (room_of (unregister_all dead m) conv_id) ≡ false
unfolding unregister_all
unregister_all-leaves [] w m conv_id inv h = cc
unregister_all-leaves (ws ∷ dead) w m conv_id inv h = elim (Bool-cases (has w dead)) [
  | inl e ↦
      unregister_all-leaves dead w (unregister ws m).1 conv_id (unregister-IsIndexed ws m inv) e
  | inr e ↦
      let p : ws ≡ w = ground (arith, e, h) in
      ground (
        arith,
        p,
        unregister_all-stays dead w (unregister ws m).1 conv_id,
        unregister-leaves ws m conv_id inv,
      )
]

pub send_all-decides :
    (alive : ℕ → Bool) (exclude_ws : Option ℕ) (room : List ℕ) (w : ℕ)
    → (has w (send_all alive exclude_ws room).0
        ≡ (has w room && not (is_excluded exclude_ws w) && alive w))
      × (has w (send_all alive exclude_ws room).1
          ≡ (has w room && not (is_excluded exclude_ws w) && not (alive w)))
send_all-decides alive exclude_ws [] w = (refl, refl)
send_all-decides alive exclude_ws (x ∷ room) w = elim (Bool-cases (eqb x w)) [
  | inl e ↦
      let p : x ≡ w = ground (arith, e) in
      ground (arith, p, send_all-decides alive exclude_ws room w, eqb_refl w)
  | inr e ↦ ground (arith, e, send_all-decides alive exclude_ws room w)
]

-- Where the rooms and the metadata agree, a frame reaches a socket exactly if it is in the room,
-- is not the excluded one, and its send succeeds; one whose send raises is in no room afterwards;
-- and the rooms and the metadata still agree.
pub broadcast_to_room-reaches :
    (alive : ℕ → Bool) (conv_id : String) (exclude_ws : Option ℕ) (m : ConnectionManager) (w : ℕ)
    (c : String)
    → IsIndexed m
    → let (reached, m') = broadcast_to_room alive conv_id exclude_ws m in
      let is_tried = has w (room_of m conv_id) && not (is_excluded exclude_ws w) in
      (has w reached ≡ (is_tried && alive w))
      × ((is_tried && not (alive w) && has w (room_of m' c)) ≡ false)
      × IsIndexed m'
unfolding broadcast_to_room
broadcast_to_room-reaches alive conv_id exclude_ws m w c inv =
    let room = room_of m conv_id in
    let dead = (send_all alive exclude_ws room).1 in
    (
      ground (arith, send_all-decides alive exclude_ws room w),
      ground
          (arith, send_all-decides alive exclude_ws room w, unregister_all-leaves dead w m c inv),
      unregister_all-IsIndexed dead m inv,
    )

pub broadcast_to_room-stays :
    (alive : ℕ → Bool) (conv_id : String) (exclude_ws : Option ℕ) (m : ConnectionManager) (w : ℕ)
    (c : String)
    → has w (room_of (broadcast_to_room alive conv_id exclude_ws m).1 c) ≡ true
    → has w (room_of m c) ≡ true
unfolding broadcast_to_room
broadcast_to_room-stays alive conv_id exclude_ws m w c h =
    unregister_all-stays (send_all alive exclude_ws (room_of m conv_id)).1 w m c h
