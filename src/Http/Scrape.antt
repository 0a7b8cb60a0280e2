-- ===== src/Http/Scrape.antt =====
-- What a scraper reads off the metrics page of src/mcp_http.rs.
use kutsu.Base.{
  ℕ, ◌≤◌, ◌<◌, ◌≡◌, ◌∙◌, ap, refl, Bool, true, false, not, ◌&&◌, Option, some, List, [], ◌∷◌, ◌++◌,
  map, length, All, arith, ◌==◌, if◌then◌else◌, u64_max,
}
use kutsu.Base.Bytes.{Bytes}
use kutsu.Base.Decimal.{print_decimal, print_decimal-ge, parse_u64, parse_u64-print_decimal}
use kutsu.Disposition.{ascii}
use kutsu.Engine.Scheduler.{Engine}
use kutsu.Http.{
  metrics_snapshot, MetricsSnapshot, Metric, metrics_of, help_line, type_line, value_line,
  metric_text, pushed, render_prometheus,
}

-- A scraper of the text format: the lines that are not comments, each a name, a space and a number.
abbrev prepend : ℕ → List Bytes → List Bytes
prepend c [] = (c ∷ []) ∷ []
prepend c (l ∷ ls) = (c ∷ l) ∷ ls

unfoldable pub lines : Bytes → List Bytes
lines [] = []
lines (c ∷ cs) = if c == 10 then [] ∷ lines cs else prepend c (lines cs)

unfoldable pub cut : Bytes → Bytes × Bytes
cut [] = ([], [])
cut (c ∷ cs) = let (a, b) = cut cs in if c == 32 then ([], cs) else (c ∷ a, b)

unfoldable pub sample_of : Bytes → List (Bytes × Option ℕ)
unfolding cut
sample_of [] = []
sample_of (c ∷ cs) =
    let (name, value) = cut (c ∷ cs) in if c == 35 then [] else (name, parse_u64 value) ∷ []

unfoldable pub samples_of : List Bytes → List (Bytes × Option ℕ)
unfolding sample_of
samples_of [] = []
samples_of (l ∷ ls) = sample_of l ++ samples_of ls

unfoldable pub scrape : Bytes → List (Bytes × Option ℕ)
unfolding lines samples_of
scrape text = samples_of (lines text)

-- The names that the page promises, and what of the engine they stand for.
abbrev pub samples : {S V F : Type 0} → ℕ → Engine S V F → List (Bytes × Option ℕ)
samples max_channels e =
    (ascii "kutsu_calls_active", some e.running)
    ∷ (ascii "kutsu_calls_queued", some (length e.hub.queue))
    ∷ (ascii "kutsu_calls_placed_total", some e.hub.shared.counters.placed)
    ∷ (ascii "kutsu_calls_completed_total", some e.hub.shared.counters.completed)
    ∷ (ascii "kutsu_calls_failed_total", some e.hub.shared.counters.failed)
    ∷ (ascii "kutsu_calls_busy_total", some e.hub.shared.counters.busy)
    ∷ (ascii "kutsu_calls_no_answer_total", some e.hub.shared.counters.no_answer)
    ∷ (ascii "kutsu_calls_rejected_total", some e.hub.shared.counters.rejected)
    ∷ (ascii "kutsu_calls_not_found_total", some e.hub.shared.counters.not_found)
    ∷ (ascii "kutsu_calls_unavailable_total", some e.hub.shared.counters.unavailable)
    ∷ (ascii "kutsu_calls_cancelled_total", some e.hub.shared.counters.cancelled)
    ∷ (ascii "kutsu_calls_voicemail_total", some e.hub.shared.counters.voicemail)
    ∷ (ascii "kutsu_calls_announcement_total", some e.hub.shared.counters.announcement)
    ∷ (ascii "kutsu_calls_ivr_total", some e.hub.shared.counters.ivr)
    ∷ (ascii "kutsu_calls_hold_total", some e.hub.shared.counters.hold)
    ∷ (ascii "kutsu_channels_cap", some max_channels)
    ∷ (ascii "kutsu_audio_underruns_total", some e.hub.shared.counters.underruns)
    ∷ (ascii "kutsu_audio_starved_ms_total", some e.hub.shared.counters.starved_ms)
    ∷ (ascii "kutsu_calls_quality_aborted_total", some e.hub.shared.counters.quality_aborted)
    ∷ (ascii "kutsu_uplink_received_total", some e.hub.shared.counters.uplink_received)
    ∷ (ascii "kutsu_uplink_lost_total", some e.hub.shared.counters.uplink_lost)
    ∷ []

free : ℕ → Bytes → Bool
free b [] = true
free b (c ∷ cs) = not (c == b) && free b cs

free-append : (b : ℕ) (xs ys : Bytes) → free b (xs ++ ys) ≡ free b xs && free b ys
unfolding free
free-append b [] ys = refl
free-append b (x ∷ xs) ys = ground (arith, free-append b xs ys)

free-digits : (b : ℕ) (xs : Bytes) → b < 48 → All (λ c. 48 ≤ c) xs → free b xs ≡ true
unfolding free
free-digits b [] h all = refl
free-digits b (x ∷ xs) h all = ground (arith, free-digits b xs h all.1)

lines-append : (l rest : Bytes) → free 10 l ≡ true → lines (l ++ (10 ∷ rest)) ≡ l ∷ lines rest
unfolding lines free
lines-append [] rest h = refl
lines-append (c ∷ l) rest h = ground (arith, lines-append l rest)

cut-append : (name rest : Bytes) → free 32 name ≡ true → cut (name ++ (32 ∷ rest)) ≡ (name, rest)
unfolding cut free
cut-append [] rest h = refl
cut-append (c ∷ name) rest h = ground (arith, cut-append name rest)

-- A name is not empty and starts no comment.
is_name : Bytes → Bool
is_name [] = false
is_name (c ∷ cs) = not (c == 35)

is_plain : Metric → Bool
unfolding free is_name
is_plain x =
    free 10 x.name && (free 32 x.name && (free 10 x.help && (free 10 x.kind && is_name x.name)))

sample_of-value_line :
    (name : Bytes) (n : ℕ)
    → is_name name ≡ true
    → free 32 name ≡ true
    → n ≤ u64_max
    → sample_of (name ++ (32 ∷ print_decimal n)) ≡ (name, some n) ∷ []
unfolding sample_of is_name
sample_of-value_line [] n i f h = ground arith
sample_of-value_line (c ∷ cs) n i f h =
    ground (arith, cut-append (c ∷ cs) (print_decimal n) f, parse_u64-print_decimal n h)

free-help_line : (x : Metric) → is_plain x ≡ true → free 10 (help_line x) ≡ true
unfolding is_plain help_line
free-help_line x p = ground (arith, free-append 10 x.name (32 ∷ x.help))

free-type_line : (x : Metric) → is_plain x ≡ true → free 10 (type_line x) ≡ true
unfolding is_plain type_line
free-type_line x p = ground (arith, free-append 10 x.name (32 ∷ x.kind))

free-value_line : (x : Metric) → is_plain x ≡ true → free 10 (value_line x) ≡ true
unfolding is_plain value_line
free-value_line x p = ground (
  arith,
  free-append 10 x.name (32 ∷ print_decimal x.value),
  free-digits 10 (print_decimal x.value) (omega arith) (print_decimal-ge x.value),
)

no_sample-help_line : (x : Metric) → sample_of (help_line x) ≡ []
unfolding sample_of help_line
no_sample-help_line x = refl

no_sample-type_line : (x : Metric) → sample_of (type_line x) ≡ []
unfolding sample_of type_line
no_sample-type_line x = refl

lines-metric_text :
    (x : Metric) (rest : Bytes)
    → is_plain x ≡ true
    → lines (metric_text x rest) ≡ help_line x ∷ type_line x ∷ value_line x ∷ lines rest
unfolding metric_text
lines-metric_text x rest p =
    lines-append (help_line x) _ (free-help_line x p)
    ∙ ap (λ (ls : List Bytes). help_line x ∷ ls)
        (lines-append (type_line x) _ (free-type_line x p)
          ∙ ap (λ (ls : List Bytes). type_line x ∷ ls)
              (lines-append (value_line x) rest (free-value_line x p)))

sample-value_line :
    (x : Metric)
    → is_plain x ≡ true
    → x.value ≤ u64_max
    → sample_of (value_line x) ≡ (x.name, some x.value) ∷ []
unfolding value_line is_plain
sample-value_line x p h = sample_of-value_line x.name x.value (ground arith) (ground arith) h

samples_of-metric :
    (x : Metric) (ls : List Bytes)
    → is_plain x ≡ true
    → x.value ≤ u64_max
    → samples_of (help_line x ∷ type_line x ∷ value_line x ∷ ls)
      ≡ (x.name, some x.value) ∷ samples_of ls
unfolding samples_of
samples_of-metric x ls p h =
    simp (no_sample-help_line x, no_sample-type_line x, sample-value_line x p h)

scrape-metric_text :
    (x : Metric) (rest : Bytes)
    → is_plain x ≡ true
    → x.value ≤ u64_max
    → scrape (metric_text x rest) ≡ (x.name, some x.value) ∷ scrape rest
unfolding scrape
scrape-metric_text x rest p h =
    ap samples_of (lines-metric_text x rest p) ∙ samples_of-metric x (lines rest) p h

scrape-pushed :
    (xs : List Metric)
    → All (λ x. is_plain x ≡ true) xs
    → All (λ x. x.value ≤ u64_max) xs
    → scrape (pushed xs) ≡ map (λ (x : Metric). (x.name, some x.value)) xs
unfolding pushed
scrape-pushed [] p h = unfold scrape lines samples_of in refl
scrape-pushed (x ∷ xs) p h =
    scrape-metric_text x (pushed xs) p.0 h.0
    ∙ ap (λ (ls : List (Bytes × Option ℕ)). (x.name, some x.value) ∷ ls) (scrape-pushed xs p.1 h.1)

plain_metrics : (m : MetricsSnapshot) → All (λ x. is_plain x ≡ true) (metrics_of m)
unfolding metrics_of is_plain free is_name
plain_metrics m = ground arith

-- A scraper reads every metric off the page under the name that it is promised by, once and in
-- order: the load of the engine and its counters, each its own, as long as they fit a u64.
pub scrape-render_prometheus :
    {S V F : Type 0} (max_channels : ℕ) (e : Engine S V F)
    → All (λ x. x.value ≤ u64_max) (metrics_of (metrics_snapshot max_channels e))
    → scrape (render_prometheus (metrics_snapshot max_channels e)) ≡ samples max_channels e
unfolding render_prometheus metrics_of metrics_snapshot
scrape-render_prometheus max_channels e h =
    scrape-pushed (metrics_of (metrics_snapshot max_channels e))
      (plain_metrics (metrics_snapshot max_channels e)) h
