-- ===== src/Engine/Finish/Tally.antt =====
-- The counters of src/engine.rs count every finalized call, once, under its disposition.
use kutsu.Base.{ℕ, ◌+◌, ◌≡◌, Bool, List, [], ◌∷◌, arith, if◌then◌else◌, wrapping_add64, ◌==◌, ◌<◌}
use kutsu.Disposition.{Disposition}
use kutsu.Engine.Finish.{Counters, bump_disposition}

-- The counter of a disposition.
unfoldable pub tally : Counters → Disposition → ℕ
tally c Disposition.completed = c.completed
tally c Disposition.voicemail = c.voicemail
tally c Disposition.announcement = c.announcement
tally c Disposition.ivr = c.ivr
tally c Disposition.hold = c.hold
tally c Disposition.busy = c.busy
tally c Disposition.no_answer = c.no_answer
tally c Disposition.rejected = c.rejected
tally c Disposition.not_found = c.not_found
tally c Disposition.unavailable = c.unavailable
tally c Disposition.failed = c.failed
tally c Disposition.cancelled = c.cancelled

-- A number for each disposition, to compare them.
abbrev pub code : Disposition → ℕ
code Disposition.completed = 0
code Disposition.voicemail = 1
code Disposition.announcement = 2
code Disposition.ivr = 3
code Disposition.hold = 4
code Disposition.busy = 5
code Disposition.no_answer = 6
code Disposition.rejected = 7
code Disposition.not_found = 8
code Disposition.unavailable = 9
code Disposition.failed = 10
code Disposition.cancelled = 11

abbrev pub same : Disposition → Disposition → Bool
same d e = code d == code e

unfoldable pub total : List Disposition → Counters → Counters
total [] c = c
total (d ∷ ds) c = total ds (bump_disposition c d)

abbrev pub occurrences : Disposition → List Disposition → ℕ
occurrences d [] = 0
occurrences d (e ∷ es) = (if same e d then 1 else 0) + occurrences d es

pub tally-bump :
    (c : Counters) (d e : Disposition)
    → tally (bump_disposition c d) e
      ≡ (if same d e then wrapping_add64 (tally c e) 1 else tally c e)
unfolding tally bump_disposition
tally-bump c d e = ground arith

-- After any sequence of finalized calls, each disposition's counter has grown by exactly the
-- number of calls that resolved to it (modulo 2 ^ 64): no finalization is lost, counted twice
-- or counted under another disposition.
tally-total :
    (ds : List Disposition) (c : Counters) (d : Disposition)
    → tally c d < 18446744073709551616
    → tally (total ds c) d ≡ wrapping_add64 (tally c d) (occurrences d ds)
unfolding total
tally-total [] c d h = omega arith
tally-total (e ∷ ds) c d h =
    grind (arith, tally-bump c e d, tally-total ds (bump_disposition c e) d)
