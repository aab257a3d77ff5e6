-- ===== src/AccessPoint/Subscription/Ending.antt =====
-- accesspoint/lib/clientsubscription.go: how a call of `runSubscription` ends.
use au10_service.Prelude.{
  ℕ, suc, ◌+◌, ◌-◌, ◌≤◌, ◌≡◌, refl, sym, ap, subst, ◌∙◌, ◌⊎◌, inl, inr, Bool, true, false, Option,
  none, some, List, [], ◌∷◌, ◌++◌, arith, Outcome, ok, err, sym, subst, ◌∙◌, ap,
}
use au10_service.Text.Errors.{Error}
use au10_service.AccessPoint.Status.{Status, internal}
use au10_service.AccessPoint.Client.{Client, log_debug}
use au10_service.AccessPoint.Server.{Server}
use au10_service.AccessPoint.Client.Errors.{reject-Refuses}
use au10_service.AccessPoint.Subscription.{
  MainPlace, Subscription, main_move, sender_move, report, selecting, waiting, ended, finished,
  World, Sent, SenderPlace, closing, main_from, sender_from, awaited, info_of, writing, sending,
  written, crashed, launched, registered, subscribed, stopped, dropping, reporting, leaving,
}
use au10_service.AccessPoint.Subscription.Channel.{IsSound, main_move-IsSound, sender_move-IsSound}

-- A move of one of the two threads of a call.
pub data Move : Type 0 where
  main_goes : Bool → Bool → Move
  sender_goes : Sent → Move

unfoldable pub move : Move → Subscription × Server → Subscription × Server
move (main_goes cancelled skips) (t, s) = main_move cancelled skips t s
move (sender_goes sent) (t, s) = (sender_move sent t, s)

unfoldable pub run : List Move → Subscription × Server → Subscription × Server
run [] c = c
run (next ∷ rest) c = run rest (move next c)

-- How many moves the goroutine makes, but for rounds of `sendNext` that send a record and go on.
abbrev pub sender_steps : List Move → ℕ
sender_steps [] = 0
sender_steps (main_goes cancelled skips ∷ rest) = sender_steps rest
sender_steps (sender_goes (true, none) ∷ rest) = sender_steps rest
sender_steps (sender_goes (true, some e) ∷ rest) = suc (sender_steps rest)
sender_steps (sender_goes (false, e) ∷ rest) = suc (sender_steps rest)

abbrev pub main_steps : List Move → ℕ
main_steps [] = 0
main_steps (main_goes cancelled skips ∷ rest) = suc (main_steps rest)
main_steps (sender_goes sent ∷ rest) = main_steps rest

-- What the caller gets.
abbrev pub Ends : Option Error → MainPlace → Type 0
Ends none place = place ≡ ended (ok tt)
Ends (some e) place = (status : Status) × (place ≡ ended (err status)) × (status.code ≡ internal)

-- What `runSubscription` returns for what the select received.
abbrev Returns : Option Error → Outcome Status (Unit {0}) → Type 0
Returns none result = result ≡ ok tt
Returns (some e) result = (status : Status) × (result ≡ err status) × (status.code ≡ internal)

report-Returns :
    (client : Client) (e : Option Error) (subscribers all : ℕ) (w : World)
    → Returns e (report client e subscribers all w).1
unfolding report log_debug
report-Returns client none subscribers all w = refl
report-Returns client (some e) subscribers all w =
    let (status, same, code, kept) = reject-Refuses {A = Unit {0}} client internal _ _ w in
    (status, same, code)

Returns-Ends :
    (e : Option Error) (result : Outcome Status (Unit {0}))
    → Returns e result
    → Ends e (ended result)
Returns-Ends none result same = ap ended same
Returns-Ends (some e) result (status, same, code) = (status, ap ended same, code)

-- How many moves the goroutine has left at most.
abbrev sender_left : SenderPlace → ℕ
sender_left sending = 3
sender_left (writing e) = 2
sender_left written = 1
sender_left finished = 0
sender_left crashed = 0

-- The same for `runSubscription`, from its select on.
abbrev main_left : MainPlace → ℕ
main_left (closing e) = 6
main_left (waiting e) = 5
main_left (stopped e) = 4
main_left (dropping e) = 3
main_left (leaving e) = 2
main_left (reporting e all) = 1
main_left (ended result) = 0
main_left _ = 0

-- `runSubscription` is behind its select, which received `e`.
abbrev Carries : Option Error → MainPlace → Type 0
Carries e (closing f) = f ≡ e
Carries e (waiting f) = f ≡ e
Carries e (stopped f) = f ≡ e
Carries e (dropping f) = f ≡ e
Carries e (leaving f) = f ≡ e
Carries e (reporting f all) = f ≡ e
Carries e (ended result) = Returns e result
Carries e _ = ⊥

-- What a move of `runSubscription` does behind its select.
abbrev Advances : Option Error → MainPlace → Subscription → Subscription → Type 0
Advances e place t t' =
    Carries e t'.main
    × (t'.sender ≡ t.sender)
    × (main_left t'.main ≤ main_left place)
    × (t.sender ≡ finished → main_left t'.main + 1 ≤ main_left place ⊎ (main_left t'.main ≡ 0))

awaited-Advances :
    (e f : Option Error) (sender : SenderPlace) (t : Subscription)
    → f ≡ e
    → t.sender ≡ sender
    → t.main ≡ waiting f
    → Advances e (waiting f) t (awaited f sender t)
awaited-Advances e f finished t v over at = (v, refl, omega arith, λ same. inl (omega arith))
awaited-Advances e f sending t v over at =
    rw at (v, refl, omega arith, λ same. absurd (ground (arith, over, same)))
awaited-Advances e f (writing g) t v over at =
    rw at (v, refl, omega arith, λ same. absurd (ground (arith, over, same)))
awaited-Advances e f written t v over at =
    rw at (v, refl, omega arith, λ same. absurd (ground (arith, over, same)))
awaited-Advances e f crashed t v over at =
    rw at (v, refl, omega arith, λ same. absurd (ground (arith, over, same)))

main_from-Advances :
    (e : Option Error) (place : MainPlace) (cancelled skips : Bool) (t : Subscription) (s : Server)
    → Carries e place
    → t.main ≡ place
    → Advances e place t (main_from place cancelled skips t s).0
main_from-Advances e (closing f) cancelled skips t s v at =
    (v, refl, omega arith, λ same. inl (omega arith))
main_from-Advances e (waiting f) cancelled skips t s v at =
    awaited-Advances e f t.sender t v refl at
main_from-Advances e (stopped f) cancelled skips t s v at =
    (v, refl, omega arith, λ same. inl (omega arith))
main_from-Advances e (dropping f) cancelled skips t s v at =
    (v, refl, omega arith, λ same. inl (omega arith))
main_from-Advances e (leaving f) cancelled skips t s v at =
    (v, refl, omega arith, λ same. inl (omega arith))
main_from-Advances e (reporting f all) cancelled skips t s v at = (
  subst (λ g. Returns g (report t.client f (info_of t.kind s) all s.world).1) v
      (report-Returns t.client f (info_of t.kind s) all s.world),
  refl,
  omega arith,
  λ same. inr refl,
)
main_from-Advances e (ended result) cancelled skips t s v at =
    rw at (v, refl, omega arith, λ same. inr refl)
main_from-Advances e launched cancelled skips t s v at = absurd v
main_from-Advances e (registered all) cancelled skips t s v at = absurd v
main_from-Advances e (subscribed all) cancelled skips t s v at = absurd v
main_from-Advances e selecting cancelled skips t s v at = absurd v

-- What a move of the goroutine does: it takes it one step on, but for a round of `sendNext`.
sender_move-steps :
    (sent : Sent) (t : Subscription)
    → IsSound t
    → ((sender_move sent t).main ≡ t.main)
      × (sender_left (sender_move sent t).sender
          ≤ sender_left t.sender - sender_steps (sender_goes sent ∷ []))
unfolding sender_move
sender_move-steps sent t v = ground arith

sender_steps-first :
    (sent : Sent) (rest : List Move)
    → sender_steps (sender_goes sent ∷ rest)
      ≡ sender_steps (sender_goes sent ∷ []) + sender_steps rest
sender_steps-first (true, none) rest = omega arith
sender_steps-first (true, some e) rest = omega arith
sender_steps-first (false, e) rest = omega arith

-- The goroutine, whatever happens between its moves.
run_early :
    (e : Option Error) (moves : List Move) (t : Subscription) (s : Server)
    → IsSound t
    → Carries e t.main
    → IsSound (run moves (t, s)).0
      × Carries e (run moves (t, s)).0.main
      × (sender_left (run moves (t, s)).0.sender ≤ sender_left t.sender - sender_steps moves)
unfolding run move main_move
run_early e [] t s v carries = (v, carries, omega arith)
run_early e (main_goes cancelled skips ∷ rest) t s v carries =
    let (carries', same, shorter, later) =
      main_from-Advances e t.main cancelled skips t s carries refl in
    let (t', s') = main_from t.main cancelled skips t s in
    let (v', c, bound) =
      run_early e rest t' s' (main_move-IsSound cancelled skips t s v) carries' in
    (v', c, ground (arith, bound, same))
run_early e (sender_goes sent ∷ rest) t s v carries =
    let (same, less) = sender_move-steps sent t v in
    let (v', c, bound) =
      run_early e rest (sender_move sent t) s (sender_move-IsSound sent t v)
        (subst (Carries e) (sym same) carries) in
    let first = sender_steps-first sent rest in (v', c, omega (arith, bound, less, first))

is_finished : (t : Subscription) → IsSound t → sender_left t.sender ≡ 0 → t.sender ≡ finished
is_finished t v none_left = ground (arith, v.alive)

finished_stays : (sent : Sent) (t : Subscription) → t.sender ≡ finished → sender_move sent t ≡ t
unfolding sender_move
finished_stays sent t over = ap (λ place. sender_from place sent t) over

-- `runSubscription`, once the goroutine is over.
run_late :
    (e : Option Error) (moves : List Move) (t : Subscription) (s : Server)
    → Carries e t.main
    → t.sender ≡ finished
    → Carries e (run moves (t, s)).0.main
      × (main_left (run moves (t, s)).0.main ≤ main_left t.main - main_steps moves)
unfolding run move main_move sender_move
run_late e [] t s carries over = (carries, omega arith)
run_late e (main_goes cancelled skips ∷ rest) t s carries over =
    let (carries', same, shorter, later) =
      main_from-Advances e t.main cancelled skips t s carries refl in
    let (t', s') = main_from t.main cancelled skips t s in
    let (c, bound) = run_late e rest t' s' carries' (same ∙ over) in
    let less = later over in (c, omega (arith, bound, less))
run_late e (sender_goes sent ∷ rest) t s carries over =
    subst
      (λ t'.
        Carries e (run rest (t', s)).0.main
        × (main_left (run rest (t', s)).0.main ≤ main_left t.main - main_steps rest))
      (sym (finished_stays sent t over)) (run_late e rest t s carries over)

run-append :
    (early late : List Move) (c : Subscription × Server)
    → run (early ++ late) c ≡ run late (run early c)
unfolding run
run-append [] late c = refl
run-append (next ∷ rest) late c = run-append rest late (move next c)

Carries-Ends :
    (e : Option Error) (place : MainPlace) → Carries e place → main_left place ≡ 0 → Ends e place
Carries-Ends e (ended result) carries over = Returns-Ends e result carries
Carries-Ends e (closing f) carries over = absurd (omega (arith, over))
Carries-Ends e (waiting f) carries over = absurd (omega (arith, over))
Carries-Ends e (stopped f) carries over = absurd (omega (arith, over))
Carries-Ends e (dropping f) carries over = absurd (omega (arith, over))
Carries-Ends e (leaving f) carries over = absurd (omega (arith, over))
Carries-Ends e (reporting f all) carries over = absurd (omega (arith, over))
Carries-Ends e launched carries over = absurd carries
Carries-Ends e (registered all) carries over = absurd carries
Carries-Ends e (subscribed all) carries over = absurd carries
Carries-Ends e selecting carries over = absurd carries

main_left-bound : (place : MainPlace) → main_left place ≤ 6
main_left-bound place = ground arith

sender_left-bound : (place : SenderPlace) → sender_left place ≤ 3
sender_left-bound place = ground arith

-- The select receives `e`: nothing, as the caller cancels, or the error that is in the channel.
abbrev pub Receives : Bool → Subscription → Option Error → Type 0
Receives true t e = e ≡ none
Receives false t e = t.errors ≡ some e

select-Carries :
    (cancelled : Bool) (t : Subscription) (s : Server) (e : Option Error)
    → t.main ≡ selecting
    → Receives cancelled t e
    → Carries e (main_move cancelled cancelled t s).0.main
unfolding main_move
select-Carries true t s e selects received = ground arith
select-Carries false t s e selects received = ground arith

-- A call whose channel is sound, at a moment when the select has the caller's cancelling or an error
-- to receive, comes to its end behind it, if the subscription's own `close` returns and `sendNext`
-- does not send for ever: in every interleaving of the two threads in which the goroutine has made
-- three moves, besides rounds of `sendNext` that go on, and `runSubscription` then makes six, it has
-- returned, with no error for the cancelling or a nil error, and else with the status Internal.
pub run-Ends :
    (cancelled : Bool) (t : Subscription) (s : Server) (e : Option Error) (early late : List Move)
    → IsSound t
    → t.main ≡ selecting
    → Receives cancelled t e
    → 3 ≤ sender_steps early
    → 6 ≤ main_steps late
    → Ends e (run (early ++ late) (main_move cancelled cancelled t s)).0.main
run-Ends cancelled t s e early late v selects received enough enough' =
    let (t1, s1) = main_move cancelled cancelled t s in
    let (sound, carries, none_left) =
      run_early e early t1 s1 (main_move-IsSound cancelled cancelled t s v)
        (select-Carries cancelled t s e selects received) in
    let c = run early (t1, s1) in
    let sender_bound = sender_left-bound t1.sender in
    let over = is_finished c.0 sound (omega (arith, none_left, sender_bound)) in
    let (carries', over') = run_late e late c.0 c.1 carries over in
    let main_bound = main_left-bound c.0.main in
    subst (λ c'. Ends e c'.0.main) (sym (run-append early late (t1, s1)))
      (Carries-Ends e (run late c).0.main carries' (omega (arith, over', main_bound)))
