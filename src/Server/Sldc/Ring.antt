-- ===== src/Server/Sldc/Ring.antt =====
-- The rotating history of server/src/sldc.rs seen through the output: an entry is the last byte
-- that was put out at a position with the entry's index modulo 1024.
use openwec.Prelude.{
  ℕ, zero, suc, ◌+◌, ◌%◌, ◌<◌, ◌≡◌, refl, sym, ap, ◌∙◌, arith, some, List, [], ◌∷◌, eqb, length,
  get_elem?, set, if◌then◌else◌,
}
use mathlib.Core.List.{reverse, reverse-cons}
use openwec.Server.Sldc.{State, done, stored, copy, zeros, new_history}
use openwec.Server.Sldc.Progress.{IsHistory, new_history-IsHistory, store-done, stored-IsHistory}

-- The byte at an index of the history after an output, given from its last byte on.
unfoldable pub recall : List ℕ → ℕ → ℕ
recall [] i = 0
recall (c ∷ older) i = if eqb (length older % 1024) i then c else recall older i

-- `size` bytes copied from index `k` on.
unfoldable pub recalled : ℕ → ℕ → List ℕ → List ℕ
recalled zero k out = out
recalled (suc size) k out = recalled size (k + 1) (recall out (k % 1024) ∷ out)

-- The state after an output.
abbrev pub Holds : List ℕ → State → Type 0
Holds out s =
    ((i : ℕ) → i < 1024 → get_elem? s.history_buffer i ≡ some (recall out i))
    × IsHistory s
    × (s.history_index ≡ length out % 1024)
    × (s.res ≡ reverse out)

get_elem?-set :
    (xs : List ℕ) (i j v : ℕ)
    → i < length xs
    → get_elem? (set xs i v) j ≡ (if eqb i j then some v else get_elem? xs j)
get_elem?-set [] i j v h = absurd (omega arith)
get_elem?-set (x ∷ xs) zero zero v h = refl
get_elem?-set (x ∷ xs) zero (suc j) v h = ground arith
get_elem?-set (x ∷ xs) (suc i) zero v h = ground arith
get_elem?-set (x ∷ xs) (suc i) (suc j) v h = ground (arith, get_elem?-set xs i j v)

get_elem?-zeros : (n i : ℕ) → i < n → get_elem? (zeros n) i ≡ some 0
get_elem?-zeros zero i h = absurd (omega arith)
get_elem?-zeros (suc n) zero h = refl
get_elem?-zeros (suc n) (suc i) h = get_elem?-zeros n i (omega arith)

pub initial-Holds :
    (s : State) → s.history_buffer ≡ new_history → s.history_index ≡ 0 → s.res ≡ [] → Holds [] s
unfolding recall new_history
initial-Holds s buffer index output = (
  λ i below. rw buffer (get_elem?-zeros 1024 i below),
  (ap length buffer ∙ new_history-IsHistory, omega arith),
  index,
  output,
)

pub stored-Holds : (c : ℕ) (out : List ℕ) (s : State) → Holds out s → Holds (c ∷ out) (stored c s)
unfolding recall
stored-Holds c out s (history, sized, index, output) = (
  λ i below.
      ground (arith, get_elem?-set s.history_buffer s.history_index i c, history i below, index),
  stored-IsHistory c s sized,
  omega (arith, index),
  rw output (sym (reverse-cons c out)),
)

-- A copy puts out the bytes that the history of the output has.
pub copy-Holds :
    (size k : ℕ) (out : List ℕ) (s : State)
    → Holds out s
    → (after : State) × (copy size k s ≡ done after)
      × Holds (recalled size k out) after
      × (after.scheme_1 ≡ s.scheme_1)
unfolding copy recalled
copy-Holds zero k out s holds = (s, refl, holds, refl)
copy-Holds (suc size) k out s holds =
    let (after, copied, kept, same) =
      copy-Holds size (k + 1) (recall out (k % 1024) ∷ out) (stored (recall out (k % 1024)) s)
        (stored-Holds _ out s holds) in
    (
      after,
      rw (holds.0 (k % 1024) (omega arith), store-done (recall out (k % 1024)) s holds.1) copied,
      kept,
      same,
    )
