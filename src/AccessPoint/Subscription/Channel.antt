-- ===== src/AccessPoint/Subscription/Channel.antt =====
-- accesspoint/lib/clientsubscription.go: the channel between the two threads of `runSubscription`.
use au10_service.Prelude.{
  ℕ, zero, suc, ◌≡◌, ◌≢◌, Bool, true, false, none, List, [], ◌∷◌, arith, All,
}
use au10_service.AccessPoint.Client.{Client}
use au10_service.AccessPoint.Server.{Server}
use au10_service.AccessPoint.Subscription.{
  Kind, MainPlace, SenderPlace, Subscription, Sent, run_subscription, sender_move, main_move, Turn,
  Running, move_at, turn, turns, sending, writing, written, finished, crashed, stopped, dropping,
  leaving, reporting, ended, call, main_turn, sender_turn, writing, stopped, dropping, crashed,
  leaving, finished, reporting, ended,
}

-- The goroutine has still to write its one error.
abbrev is_unwritten : SenderPlace → Bool
is_unwritten sending = true
is_unwritten (writing e) = true
is_unwritten written = false
is_unwritten finished = false
is_unwritten crashed = false

abbrev has_waited : MainPlace → Bool
has_waited (stopped e) = true
has_waited (dropping e) = true
has_waited (leaving e) = true
has_waited (reporting e n) = true
has_waited (ended result) = true
has_waited _ = false

abbrev has_dropped : MainPlace → Bool
has_dropped (dropping e) = true
has_dropped (leaving e) = true
has_dropped (reporting e n) = true
has_dropped (ended result) = true
has_dropped _ = false

-- The goroutine never finds the channel closed or full, and it is over before the channel is closed.
pub record IsSound (t : Subscription) : Type 0 where
  pub alive : t.sender ≢ crashed
  pub free : is_unwritten t.sender ≡ true → t.errors ≡ none
  pub over : has_waited t.main ≡ true → t.sender ≡ finished
  pub dropped : t.errors_closed ≡ has_dropped t.main

run_subscription-IsSound : (client : Client) (kind : Kind) → IsSound (run_subscription client kind)
unfolding run_subscription
run_subscription-IsSound client kind = ground arith

pub sender_move-IsSound :
    (sent : Sent) (t : Subscription) → IsSound t → IsSound (sender_move sent t)
unfolding sender_move
sender_move-IsSound sent t v = ground arith

pub main_move-IsSound :
    (cancelled skips : Bool) (t : Subscription) (s : Server)
    → IsSound t
    → IsSound (main_move cancelled skips t s).0
unfolding main_move
main_move-IsSound cancelled skips t s v = ground arith

move_at-All :
    (i : ℕ) (move : Subscription → Server → Subscription × Server) (ts : List Subscription)
    (s : Server)
    → ((t : Subscription) (s : Server) → IsSound t → IsSound (move t s).0)
    → All IsSound ts
    → All IsSound (move_at i move ts s).0
unfolding move_at
move_at-All i move [] s keep all = all
move_at-All zero move (t ∷ ts) s keep all = (keep t s all.0, all.1)
move_at-All (suc i) move (t ∷ ts) s keep all = (all.0, move_at-All i move ts s keep all.1)

turn-All : (next : Turn) (r : Running) → All IsSound r.0 → All IsSound (turn next r).0
unfolding turn
turn-All (call client kind) (ts, s) all = (run_subscription-IsSound client kind, all)
turn-All (main_turn i cancelled skips) (ts, s) all =
    move_at-All i (main_move cancelled skips) ts s (main_move-IsSound cancelled skips) all
turn-All (sender_turn i sent) (ts, s) all =
    move_at-All i (λ t s. (sender_move sent t, s)) ts s (λ t s. sender_move-IsSound sent t) all

-- From calls for which this holds, as it does for new ones, in every interleaving of the threads of
-- any calls: no goroutine writes to the closed channel, the
-- buffer has room for the one error that a goroutine writes, and the channel is closed only when
-- the goroutine is over.
pub turns-All :
    (schedule : List Turn) (r : Running) → All IsSound r.0 → All IsSound (turns schedule r).0
unfolding turns
turns-All [] r all = all
turns-All (next ∷ rest) r all = turns-All rest (turn next r) (turn-All next r all)
