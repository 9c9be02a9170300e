-- ===== src/Metrics/Pending.antt =====
-- The high-water mark of pending bytes.
use buffered_llm_proxy.Base.{ℕ, ◌≤◌, ◌<◌, ◌^◌, List, [], ◌∷◌, arith}
use buffered_llm_proxy.Base.Word.{signed_le_iff}
use buffered_llm_proxy.Metrics.{StreamMetrics, set_pending_bytes}

abbrev pub AllBelow : ℕ → List ℕ → Type 0
AllBelow n [] = Unit {0}
AllBelow n (x ∷ xs) = (x < n) × AllBelow n xs

abbrev pub AllAtMost : ℕ → List ℕ → Type 0
AllAtMost n [] = Unit {0}
AllAtMost n (x ∷ xs) = (x ≤ n) × AllAtMost n xs

-- A history of stores.
unfoldable pub set_all : List ℕ → StreamMetrics → StreamMetrics
set_all [] m = m
set_all (n ∷ ns) m = set_all ns (set_pending_bytes n m)

set_pending_bytes-max :
    (n : ℕ) (m : StreamMetrics)
    → n < 2 ^ 63
    → m.pending_bytes_max < 2 ^ 63
    → let t = set_pending_bytes n m in
      (n ≤ t.pending_bytes_max)
      × (m.pending_bytes_max ≤ t.pending_bytes_max)
      × (t.pending_bytes_max < 2 ^ 63)
unfolding set_pending_bytes
set_pending_bytes-max n m h k = ground (arith, signed_le_iff n m.pending_bytes_max h k)

-- After any history of stores of values that are not negative, the maximum is at least each of
-- them and at least what it was before.
pub pending_bytes_max-bounds :
    (ns : List ℕ) (m : StreamMetrics)
    → AllBelow (2 ^ 63) ns
    → m.pending_bytes_max < 2 ^ 63
    → (m.pending_bytes_max ≤ (set_all ns m).pending_bytes_max)
      × AllAtMost (set_all ns m).pending_bytes_max ns
unfolding set_all
pending_bytes_max-bounds [] m h k = (omega arith, tt)
pending_bytes_max-bounds (n ∷ ns) m h k =
    let one = set_pending_bytes-max n m h.0 k in
    let rest = pending_bytes_max-bounds ns (set_pending_bytes n m) h.1 one.2 in
    (omega arith, (omega arith, rest.1))
