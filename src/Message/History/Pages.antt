-- ===== src/Message/History/Pages.antt =====
-- What a page holds, against the rows that match the request.
use mathlib.Core.List.{Perm}
use mathlib.Core.List.Perm
use relationship_os.Base.{
  ℕ, zero, suc, min, ◌≤◌, String, Bool, true, ◌≡◌, refl, Option, none, some, List, [], ◌∷◌, ◌++◌,
  arith, length, length-take, take, drop, select, All,
}
use relationship_os.Base.Int.{ℤ, pos, negsuc, lt_int, gt_int, clamp_limit}
use relationship_os.Base.Sorting.{
  sort_by, IsSorted, IsOrder, sort_by-IsSorted, sort_by-perm, length-sort_by, All-sort_by,
  take-before-drop,
}
use relationship_os.Db.Rows.{Message}
use relationship_os.Message.Send.{is_in}
use relationship_os.Message.History.{ascending, descending, history}

-- The messages that a request is about: with both cursors given, only the first counts.
abbrev pub candidates : String → Option ℤ → Option ℤ → List Message → List Message
candidates c (some before) _ ms =
    select (λ m. lt_int m.sequence_number before) (select (is_in c) ms)
candidates c none (some after) ms =
    select (λ m. gt_int m.sequence_number after) (select (is_in c) ms)
candidates c none none ms = select (is_in c) ms

-- The order in which a request prefers them: from the cursor on, or the latest first.
abbrev pub preference : Option ℤ → Option ℤ → Message → Message → Bool
preference none (some _) = ascending
preference _ _ = descending

-- The page is the candidates but for a rest, it comes before all the rest in the order of
-- preference, and it is as long as the limit allows.
pub record IsPage (prefer : Message → Message → Bool) (limit : ℕ) (all result : List Message)
    : Type 0 where
  pub rest : List Message
  pub complete : Perm (result ++ rest) all
  pub preferred : All (λ m. All (λ n. prefer m n ≡ true) rest) result
  pub full : length result ≡ min limit (length all)

ascending-IsOrder : IsOrder ascending
ascending-IsOrder = record { total = λ a b h. ground arith; trans = λ a b c h k. ground arith }

descending-IsOrder : IsOrder descending
descending-IsOrder = record { total = λ a b h. ground arith; trans = λ a b c h k. ground arith }

take-append-drop : (n : ℕ) (xs : List Message) → take n xs ++ drop n xs ≡ xs
take-append-drop zero xs = refl
take-append-drop (suc n) [] = refl
take-append-drop (suc n) (x ∷ xs) = rw (take-append-drop n xs)

sorted_take-IsPage :
    (prefer : Message → Message → Bool) (limit : ℕ) (all : List Message)
    → IsOrder prefer
    → IsPage prefer limit all (sort_by ascending (take limit (sort_by prefer all)))
sorted_take-IsPage prefer limit all o = record {
  rest = drop limit (sort_by prefer all);
  complete =
      Perm.trans (Perm.append_right _ (sort_by-perm ascending (take limit (sort_by prefer all))))
        (rw take-append-drop (sort_by-perm prefer all));
  preferred =
      All-sort_by ascending _ _ (take-before-drop prefer limit _ (sort_by-IsSorted prefer o all));
  full = omega (
    arith,
    length-sort_by ascending (take limit (sort_by prefer all)),
    length-take limit (sort_by prefer all),
    length-sort_by prefer all,
  );
}

clamp_limit-le : (limit : ℤ) → clamp_limit limit ≤ 100
clamp_limit-le (pos k) = omega arith
clamp_limit-le (negsuc k) = omega arith

clamped_take-IsPage :
    (prefer : Message → Message → Bool) (limit : ℤ) (all : List Message)
    → IsOrder prefer
    → let result = sort_by ascending (take (clamp_limit limit) (sort_by prefer all)) in
      IsPage prefer (clamp_limit limit) all result
      × IsSorted ascending result
      × (length result ≤ 100)
clamped_take-IsPage prefer limit all o =
    let p = sorted_take-IsPage prefer (clamp_limit limit) all o in
    (p, sort_by-IsSorted ascending ascending-IsOrder _, omega (arith, p.full, clamp_limit-le limit))

-- Every answer of `get_history` is a page of the messages that match the cursors, in the
-- conversation's order and of at most 100 messages: with `after_seq` alone the earliest ones after
-- the cursor, otherwise the latest ones (before the cursor).
pub history-IsPage :
    (c : String) (before after : Option ℤ) (limit : ℤ) (ms : List Message)
    → IsPage
        (preference before after)
        (clamp_limit limit)
        (candidates c before after ms)
        (history c before after limit ms)
      × IsSorted ascending (history c before after limit ms)
      × (length (history c before after limit ms) ≤ 100)
unfolding history
history-IsPage c (some b) after limit ms =
    clamped_take-IsPage descending limit (candidates c (some b) after ms) descending-IsOrder
history-IsPage c none (some a) limit ms =
    clamped_take-IsPage ascending limit (candidates c none (some a) ms) ascending-IsOrder
history-IsPage c none none limit ms =
    clamped_take-IsPage descending limit (candidates c none none ms) descending-IsOrder
