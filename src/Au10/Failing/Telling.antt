-- ===== src/Au10/Failing/Telling.antt =====
-- au10/streamreader.go: when `serve` comes back from telling its subscriptions of an error.
use au10_service.Prelude.{
  ℕ, ◌≡◌, refl, sym, ◌∙◌, ◌≢◌, ◌↔◌, ◌⊎◌, inl, inr, true, false, Option, List, [], ◌∷◌, ◌++◌, map,
  arith, Bool-cases, All, append_assoc, append-nil, sym, ◌∙◌,
}
use au10_service.Text.Errors.{Error}
use au10_service.Au10.Reader.{member}
use au10_service.Au10.Failing.{
  reads, Owner, leaving, choosing, telling, Failing, moved_to, Move, fails, tells, all_told,
  cancels, closes, unsubscribes, Moves, none_yet, after,
}

-- A subscription is still to be told, and nothing reads its channel.
abbrev IsMissed : ℕ → Failing → Type 0
IsMissed id s =
    (e : Option Error) × (ids : List ℕ) × (s.serving ≡ telling e ids)
    × (member id ids ≡ true)
    × (reads (s.owners id) ≡ false)

Move-IsMissed : (id : ℕ) {s t : Failing} → Move s t → IsMissed id s → IsMissed id t
unfolding member
Move-IsMissed id (fails e' ids' at same) (e, ids, here, among, away) =
    absurd (ground (arith, at, here))
Move-IsMissed id (tells e' other ids' at taken) (e, ids, here, among, away) = (
  e',
  ids',
  refl,
  ground (arith, at, here, among, away, taken),
  ground (arith, at, here, among, away, taken),
)
Move-IsMissed id (all_told e' at) (e, ids, here, among, away) =
    absurd (ground (arith, at, here, among))
Move-IsMissed id (cancels other taken) (e, ids, here, among, away) =
    (e, ids, here, among, ground (arith, taken, away))
Move-IsMissed id (closes other taken) (e, ids, here, among, away) =
    (e, ids, here, among, ground (arith, taken, away))
Move-IsMissed id (unsubscribes other at leaves) (e, ids, here, among, away) =
    absurd (ground (arith, at, here))

Move-kept : (id : ℕ) {s t : Failing} → Move s t → IsMissed id s → t.subscriptions ≡ s.subscriptions
Move-kept id (fails e ids at same) missed = refl
Move-kept id (tells e other ids at taken) missed = refl
Move-kept id (all_told e at) missed = refl
Move-kept id (cancels other taken) missed = refl
Move-kept id (closes other taken) missed = refl
Move-kept id (unsubscribes other at leaves) (e, ids, here, among, away) =
    absurd (ground (arith, at, here))

Moves-IsMissed :
    (id : ℕ) {s t : Failing}
    → Moves s t
    → IsMissed id s
    → IsMissed id t × (t.subscriptions ≡ s.subscriptions)
Moves-IsMissed id none_yet missed = (missed, refl)
Moves-IsMissed id (after run move) missed =
    let (still, same) = Moves-IsMissed id run missed in
    (Move-IsMissed id move still, Move-kept id move still ∙ same)

-- If an error comes while a subscription is there whose channel nothing reads any more, `serve` never
-- comes back to its select, and no subscription is ever closed, whatever happens.
pub missed-hangs :
    (s t : Failing) (e : Option Error) (ids : List ℕ) (id : ℕ)
    → member id s.subscriptions ≡ true
    → reads (s.owners id) ≡ false
    → ((other : ℕ) → member other ids ≡ member other s.subscriptions)
    → Moves (record s { serving = telling e ids }) t
    → (t.serving ≢ choosing) × (t.subscriptions ≡ s.subscriptions)
missed-hangs s t e ids id there away same run =
    let ((e', ids', here, among, away'), kept) =
      Moves-IsMissed id run (e, ids, refl, same id ∙ there, away) in
    (λ back. ground (arith, back, here), kept)

-- No subscription stands twice.
abbrev pub IsDistinct : List ℕ → Type 0
IsDistinct [] = Unit {0}
IsDistinct (id ∷ ids) = (member id ids ≡ false) × IsDistinct ids

abbrev pub AllRead : (ℕ → Owner) → List ℕ → Type 0
AllRead owners ids = All {A = ℕ} (λ id. reads (owners id) ≡ true) ids

AllRead-moved_to :
    (place : Owner) (id : ℕ) (owners : ℕ → Owner) (ids : List ℕ)
    → member id ids ≡ false
    → AllRead owners ids
    → AllRead (moved_to place id owners) ids
unfolding member
AllRead-moved_to place id owners [] out all = tt
AllRead-moved_to place id owners (other ∷ ids) out all =
    ground (arith, AllRead-moved_to place id owners ids)

first_then : {s t u : Failing} → Move s t → Moves t u → Moves s u
first_then move none_yet = after none_yet move
first_then move (after run last) = after (first_then move run) last

-- If something reads each channel, everyone can be told, in the loop's order.
tell_all :
    (e : Option Error) (ids : List ℕ) (s : Failing)
    → s.serving ≡ telling e ids
    → IsDistinct ids
    → AllRead s.owners ids
    → (t : Failing) × Moves s t
      × (t.serving ≡ choosing)
      × (t.told ≡ s.told ++ map (λ id. (id, e)) ids)
tell_all e [] s at distinct all = (_, after none_yet (all_told e at), refl, sym (append-nil s.told))
tell_all e (id ∷ ids) s at distinct all =
    let (t, run, back, told) =
      tell_all e ids
        (record s {
          serving = telling e ids;
          owners = moved_to leaving id s.owners;
          told = s.told ++ (id, e) ∷ [];
        })
        refl distinct.1 (AllRead-moved_to leaving id s.owners ids distinct.0 all.1) in
    (
      t,
      first_then (tells e id ids at all.0) run,
      back,
      told ∙ append_assoc s.told ((id, e) ∷ []) (map (λ i. (i, e)) ids),
    )

AllRead-cases :
    (owners : ℕ → Owner) (ids : List ℕ)
    → AllRead owners ids ⊎ ((id : ℕ) × (member id ids ≡ true) × (reads (owners id) ≡ false))
unfolding member
AllRead-cases owners [] = inl tt
AllRead-cases owners (id ∷ ids) = elim (Bool-cases (reads (owners id))) [
  | inr away ↦ inr (id, ground arith, away)
  | inl there ↦ elim (AllRead-cases owners ids) [
    | inl all ↦ inl (there, all)
    | inr (other, among, away) ↦ inr (other, ground (arith, among), away)
  ]
]

-- `serve` can come back from telling distinct subscriptions of an error exactly if something still
-- reads the channel of each of them.
pub telling-ends_iff :
    (s : Failing) (e : Option Error) (ids : List ℕ)
    → s.serving ≡ telling e ids
    → IsDistinct ids
    → ((t : Failing) × Moves s t × (t.serving ≡ choosing)) ↔ AllRead s.owners ids
telling-ends_iff s e ids at distinct = (sound, complete)
  where
    sound : (t : Failing) × Moves s t × (t.serving ≡ choosing) → AllRead s.owners ids
    sound (t, run, back) = elim (AllRead-cases s.owners ids) [
      | inl all ↦ all
      | inr (id, among, away) ↦
          let ((e', ids', here, among', away'), kept) =
            Moves-IsMissed id run (e, ids, at, among, away) in
          absurd (ground (arith, back, here))
    ]

    complete : AllRead s.owners ids → (t : Failing) × Moves s t × (t.serving ≡ choosing)
    complete all = let (t, run, back, told) = tell_all e ids s at distinct all in (t, run, back)
