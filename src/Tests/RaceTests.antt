-- ===== src/Tests/RaceTests.antt =====
-- packages/plugin-rest-cache/server/src/middlewares/recv.ts: runs of requests and purges.
use plugin_rest_cache.Prelude.{ℕ, ◌≡◌, refl, ◌≢◌, false, none, some, arith, Text, lit}
use plugin_rest_cache.Race.{
  Phase, reading, answering, fetched, writing, written, committed, World, update, Move, Step, Reach,
  here, next, fresh, purged,
}
use plugin_rest_cache.Race.Invariant.{Cleaning}
use plugin_rest_cache.Race.Fresh.{Quiet, Quiet-current, stale-Cleaning, joined-current}

abbrev key : Text
key = lit "/api/articles"

abbrev w0 : World
w0 = fresh 7

abbrev w1 : World
w1 = record w0 { requests = update w0.requests 0 (reading 0) }

abbrev w2 : World
w2 = record w1 { entry = none; requests = update w1.requests 0 (answering 0 7) }

abbrev w3 : World
w3 = record w2 { entry = none; requests = update w2.requests 0 (fetched 0 7) }

abbrev w4 : World
w4 = record w3 { entry = none; requests = update w3.requests 0 (writing 0 7) }

abbrev w5 : World
w5 = record w4 { entry = some 7; requests = update w4.requests 0 (written 0 7) }

abbrev w6 : World
w6 = record w5 { entry = some 7; requests = update w5.requests 0 Phase.idle }

-- The content changes while the request is at its last test.
abbrev w7 : World
w7 = record w5 { version = 8; purging = update w5.purging 0 committed }

-- A request misses and reads the content.
run2 : Reach key w0 w2
run2 =
    next (next (here w0) (Step.begin w0 0 refl))
      (Step.move w1 0 (reading 0) (answering 0 7) none refl (Move.read_content 0))

-- It stores what it has read.
run5 : Reach key w0 w5
unfolding purged
run5 =
    next
      (next (next run2 (Step.move w2 0 (answering 0 7) (fetched 0 7) none refl (Move.respond 0 7)))
        (Step.move w3 0 (fetched 0 7) (writing 0 7) none refl (Move.start_write 0 7 refl)))
      (Step.move w4 0 (writing 0 7) (written 0 7) (some 7) refl (Move.land 0 7))

run6 : Reach key w0 w6
unfolding purged
run6 = next run5 (Step.move w5 0 (written 0 7) Phase.idle (some 7) refl (Move.keep 0 7 refl))

run7 : Reach key w0 w7
run7 = next run5 (Step.change w5 0 refl)

w6-Quiet : Quiet w6
w6-Quiet = (λ i. ground arith, λ k. refl)

Quiet-current_example : 7 ≡ w6.version
Quiet-current_example = Quiet-current key run6 w6-Quiet 7 refl

stale-Cleaning_example : Cleaning key w7
stale-Cleaning_example = stale-Cleaning key run7 7 refl (omega arith)

w2_unpurged : purged key w2 0 ≡ false
unfolding purged
w2_unpurged = refl

w2_no_change : (k : ℕ) → w2.purging k ≢ committed
w2_no_change k e = cc

joined-current_example : 7 ≡ w2.version
joined-current_example = joined-current key run2 0 0 7 refl w2_no_change w2_unpurged
