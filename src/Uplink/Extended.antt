-- ===== src/Uplink/Extended.antt =====
-- The 16-bit accounting of src/sip/uplink.rs against the unbounded numbers that the sender gave
-- its packets (RFC 3550), however often the 16 bits wrap.
use kutsu.Base.{
  ℕ, zero, suc, ◌+◌, ◌-◌, ◌*◌, ◌%◌, ◌≤◌, ◌<◌, ◌≡◌, refl, ap, ◌∙◌, true, ltb, if◌then◌else◌, List,
  [], ◌∷◌, map, length, arith, max,
}
use kutsu.Uplink.{UplinkStats, new, observe, observe_next, snapshot, run}

-- The highest number seen so far, starting from `m`.
abbrev pub highest : ℕ → List ℕ → ℕ
highest m [] = m
highest m (e ∷ es) = highest (max m e) es

-- Packets that arrive after one with a higher number.
abbrev pub late : ℕ → List ℕ → ℕ
late m [] = 0
late m (e ∷ es) = (if ltb e m then 1 else 0) + late (max m e) es

-- Every packet is within half the sequence space of the highest before it.
abbrev pub InWindow : ℕ → List ℕ → Type 0
InWindow m [] = Unit {0}
InWindow m (e ∷ es) = (e < m + 32768) × (m ≤ e + 32768) × InWindow (max m e) es

-- The stats stand for a stream with highest number `m`.
record Tracks (m first received reordered : ℕ) (s : UplinkStats) : Type 0 where
  is_started : s.started ≡ true
  extended : s.cycles * 65536 + s.max16 ≡ m
  narrow : s.max16 < 65536
  from_first : s.first_ext ≡ first
  counted : s.received ≡ received
  late_ones : s.reordered ≡ reordered

observe-Tracks :
    (m first received reordered e : ℕ) (s : UplinkStats)
    → e < m + 32768
    → m ≤ e + 32768
    → Tracks m first received reordered s
    → Tracks
        (max m e)
        first
        (received + 1)
        ((if ltb e m then 1 else 0) + reordered)
        (observe s (e % 65536))
unfolding observe observe_next
observe-Tracks m first received reordered e s lo hi t = ground arith

run-Tracks :
    (es : List ℕ) (m first received reordered : ℕ) (s : UplinkStats)
    → InWindow m es
    → Tracks m first received reordered s
    → Tracks
        (highest m es)
        first
        (received + length es)
        (late m es + reordered)
        (run s (map (λ e. e % 65536) es))
unfolding run
run-Tracks [] m first received reordered s w t = ground arith
run-Tracks (e ∷ es) m first received reordered s w t = ground (
  arith,
  run-Tracks es (max m e) first (received + 1) ((if ltb e m then 1 else 0) + reordered)
      (observe s (e % 65536)) w.2 (observe-Tracks m first received reordered e s w.0 w.1 t),
)

snapshot-Tracks :
    (m first received reordered : ℕ) (s : UplinkStats)
    → Tracks m first received reordered s
    → snapshot s
      ≡ record { received = received; lost = m - first + 1 - received; reordered = reordered }
unfolding snapshot
snapshot-Tracks m first received reordered s t = ground arith

-- For a stream of packets whose true numbers start at `e` (below 2 ^ 16, which fixes where the
-- numbering starts) and stay within half the sequence space of the highest so far, the snapshot
-- counts every packet as received, the late ones as reordered, and as lost the span from the
-- first arrival's number to the highest less the packets received, through any number of 16-bit
-- wraps.
pub snapshot-run :
    (e : ℕ) (es : List ℕ)
    → e < 65536
    → InWindow e es
    → snapshot (run new (map (λ n. n % 65536) (e ∷ es))) ≡ record {
      received = length (e ∷ es);
      lost = highest e es - e + 1 - length (e ∷ es);
      reordered = late e es;
    }
unfolding run new observe
snapshot-run e es fits w =
    snapshot-Tracks (highest e es) e (1 + length es) (late e es + 0)
      (run (observe new (e % 65536)) (map (λ n. n % 65536) es))
      (run-Tracks es e e 1 0 (observe new (e % 65536)) w (ground arith))
    ∙ ground arith

-- `n` packets in order, from `e` on.
abbrev pub in_order : ℕ → ℕ → List ℕ
in_order e zero = []
in_order e (suc n) = e ∷ in_order (suc e) n

record Lossless (m e n : ℕ) : Type 0 where
  window : InWindow m (in_order e n)
  top : highest m (in_order e n) ≡ m + n
  none_late : late m (in_order e n) ≡ 0
  size : length (in_order e n) ≡ n

in_order-Lossless : (n m e : ℕ) → suc m ≡ e → Lossless m e n
in_order-Lossless zero m e h = record {
  window = tt;
  top = omega arith;
  none_late = refl;
  size = refl;
}
in_order-Lossless (suc n) m e h =
    let r = in_order-Lossless n e (suc e) refl in
    let e' : max m e ≡ e = omega arith in
    record {
      window = (omega arith, omega arith, rw e' r.window);
      top = ap (λ k. highest k (in_order (suc e) n)) e' ∙ omega (arith, r.top);
      none_late = ground (arith, ap (λ k. late k (in_order (suc e) n)) e', r.none_late);
      size = omega (arith, r.size);
    }

-- A stream with no gap reports no loss and no reordering, however long it is: the wrap of the
-- 16-bit numbers is never taken for loss.
pub in_order_lossless :
    (e n : ℕ)
    → e < 65536
    → snapshot (run new (map (λ k. k % 65536) (in_order e (suc n))))
      ≡ record { received = suc n; lost = 0; reordered = 0 }
in_order_lossless e n fits =
    let r = in_order-Lossless n e (suc e) refl in
    snapshot-run e (in_order (suc e) n) fits r.window ∙ ground (arith, r.top, r.none_late, r.size)
