-- ===== src/Message/History/Replay.antt =====
-- The replay of a conversation to a client that has seen a prefix of it.
use relationship_os.Base.{
  ℕ, zero, suc, min, ◌+◌, ◌-◌, ◌≤◌, String, true, ◌≡◌, refl, sym, ap, ◌∙◌, none, some, List, [],
  ◌∷◌, ◌++◌, map, arith, ltb, leb, ltb→lt, Bool-cases, inl, inr, ◌<◌, length, take, select, All,
}
use relationship_os.Base.Int.{ℤ, pos, clamp_limit}
use relationship_os.Base.Sorting.{IsSorted, sort_by, sort_by_sorted, take-IsSorted}
use relationship_os.Db.Rows.{Message}
use relationship_os.Message.Send.{is_in}
use relationship_os.Message.Send.Sequence.{IsGapless, one_to}
use relationship_os.Message.History.{ascending, history}

-- a, a + 1, …, of a given length
abbrev pub run : ℕ → ℕ → List ℕ
run a zero = []
run a (suc l) = a ∷ run (suc a) l

abbrev seqs : List Message → List ℕ
seqs = map (λ m. m.sequence_number)

run-snoc : (a l : ℕ) → run a l ++ ((a + l) ∷ []) ≡ run a (suc l)
run-snoc a zero = ap (λ k. k ∷ []) (omega arith)
run-snoc a (suc l) =
    ap (λ t. a ∷ t) (ap (λ n. run (suc a) l ++ (n ∷ [])) (omega arith) ∙ run-snoc (suc a) l)

pub one_to-eq-run : (n : ℕ) → one_to n ≡ run 1 n
one_to-eq-run zero = refl
one_to-eq-run (suc n) =
    rw (one_to-eq-run n) (ap (λ k. run 1 n ++ (k ∷ [])) (omega arith) ∙ run-snoc 1 n)

take-run : (k a l : ℕ) → take k (run a l) ≡ run a (min k l)
take-run zero a l = let e : min 0 l ≡ 0 = omega arith in rw e
take-run (suc k) a zero = let e : min (suc k) 0 ≡ 0 = omega arith in rw e
take-run (suc k) a (suc l) =
    let e : min (suc k) (suc l) ≡ suc (min k l) = omega arith in
    rw e (ap (λ t. a ∷ t) (take-run k (suc a) l))

seqs-take : (k : ℕ) (ms : List Message) → seqs (take k ms) ≡ take k (seqs ms)
seqs-take zero ms = refl
seqs-take (suc k) [] = refl
seqs-take (suc k) (m ∷ ms) = ap (λ t. m.sequence_number ∷ t) (seqs-take k ms)

pub run_cong : (a b l n : ℕ) → a ≡ b → l ≡ n → run a l ≡ run b n
run_cong a b l n p q = cc

run-head :
    (a : ℕ) (m : Message) (ms : List Message)
    → seqs (m ∷ ms) ≡ run a (suc (length ms))
    → m.sequence_number ≡ a
run-head a m ms e = cc

run-tail :
    (a : ℕ) (m : Message) (ms : List Message)
    → seqs (m ∷ ms) ≡ run a (suc (length ms))
    → seqs ms ≡ run (suc a) (length ms)
run-tail a m ms e = cc

select-run_above :
    (k a : ℕ) (ms : List Message)
    → seqs ms ≡ run a (length ms)
    → k < a
    → select (λ m. ltb k m.sequence_number) ms ≡ ms
select-run_above k a [] e h = refl
select-run_above k a (m ∷ ms) e h =
    ground (arith, run-head a m ms e, select-run_above k (suc a) ms (run-tail a m ms e))

-- Of the numbers a, a + 1, … those above k.
select-run :
    (k a : ℕ) (ms : List Message)
    → seqs ms ≡ run a (length ms)
    → a ≤ k + 1
    → seqs (select (λ m. ltb k m.sequence_number) ms) ≡ run (k + 1) (a + length ms - (k + 1))
select-run k a [] e h = let z : a + 0 - (k + 1) ≡ 0 = omega arith in rw z
select-run k a (m ∷ ms) e h = elim (Bool-cases (ltb k a)) [
  | inl above ↦
      let last : a ≡ k + 1 = omega (arith, ltb→lt k a above) in
      ap seqs (select-run_above k a (m ∷ ms) e (ltb→lt k a above))
      ∙ e
      ∙ run_cong a (k + 1) (suc (length ms)) (a + suc (length ms) - (k + 1)) last
          (omega (arith, last))
  | inr below ↦
      rw (run-head a m ms e, below)
        (select-run k (suc a) ms (run-tail a m ms e) (ground arith)
          ∙ ap (run (k + 1)) (omega arith))
]

All-above-run :
    (b a : ℕ) (ms : List Message)
    → b ≤ a
    → seqs ms ≡ run a (length ms)
    → All (λ y. leb b y.sequence_number ≡ true) ms
All-above-run b a [] h e = tt
All-above-run b a (m ∷ ms) h e = (
  ground (arith, run-head a m ms e),
  All-above-run b (suc a) ms (omega arith) (run-tail a m ms e),
)

pub run-IsSorted : (a : ℕ) (ms : List Message) → seqs ms ≡ run a (length ms) → IsSorted ascending ms
run-IsSorted a [] e = tt
run-IsSorted a (m ∷ ms) e = (
  All-above-run m.sequence_number (suc a) ms (omega (arith, run-head a m ms e)) (run-tail a m ms e),
  run-IsSorted (suc a) ms (run-tail a m ms e),
)

pub length-run : (a l : ℕ) → length (run a l) ≡ l
length-run a zero = refl
length-run a (suc l) = ap suc (length-run (suc a) l)

length-seqs : (ms : List Message) → length (seqs ms) ≡ length ms
length-seqs [] = refl
length-seqs (m ∷ ms) = ap suc (length-seqs ms)

-- A list numbered a, a + 1, … is its own sorted page.
page-run :
    (limit a l : ℕ) (ms : List Message)
    → seqs ms ≡ run a l
    → seqs (sort_by ascending (take limit (sort_by ascending ms))) ≡ run a (min limit l)
page-run limit a l ms e =
    let counted : l ≡ length ms = sym (length-run a l) ∙ ap length (sym e) ∙ length-seqs ms in
    let sorted : IsSorted ascending ms = run-IsSorted a ms (e ∙ ap (run a) counted) in
    rw (sort_by_sorted ascending ms sorted) (
      rw (sort_by_sorted ascending (take limit ms) (take-IsSorted ascending limit ms sorted))
        (seqs-take limit ms ∙ ap (take limit) e ∙ take-run limit a l))

-- In a gapless conversation of n messages, the page after k holds exactly the messages k + 1,
-- k + 2, … in this order: as many of the n - k as the limit allows.
pub history_after-eq-run :
    (c : String) (k : ℕ) (limit : ℤ) (ms : List Message)
    → IsGapless ms
    → map (λ m. m.sequence_number) (history c none (some (pos k)) limit ms)
      ≡ run (k + 1) (min (clamp_limit limit) (length (select (is_in c) ms) - k))
unfolding history
history_after-eq-run c k limit ms g =
    let rows = select (is_in c) ms in
    page-run (clamp_limit limit) (k + 1) (length rows - k)
      (select (λ m. ltb k m.sequence_number) rows)
      (select-run k 1 rows (g c ∙ one_to-eq-run (length rows)) (omega arith)
        ∙ ap (run (k + 1)) (omega arith))
