-- ===== src/Tracker/Session/Counts.antt =====
-- Counting the messages that levels publish.
use general_worldwide_execut.Prelude.{
  ℕ, suc, ◌+◌, ◌*◌, ◌≡◌, refl, inl, inr, Bool-cases, List, [], ◌∷◌, ◌++◌, map, arith, ltb, length,
  if◌then◌else◌,
}
use general_worldwide_execut.Prelude.Text.{Text}
use general_worldwide_execut.Gwems.Changes.{Command, join, leave}
use general_worldwide_execut.Gwems.Client.{
  accepts, throws, Event, opened, closed, failed, received, ticked,
}
use general_worldwide_execut.Gwems.Serving.{Message, ask, tell, beat, beats}
use general_worldwide_execut.Js.Double.{Double}
use general_worldwide_execut.Js.Object.{keys}
use general_worldwide_execut.Three.{Vector3}
use general_worldwide_execut.Tracker.Session.Spoken.{told, update_messages}
use general_worldwide_execut.Tracker.Update.Schedule.{advance, due}
use general_worldwide_execut.Tracker.Update.{Moved}
use general_worldwide_execut.Tracker.{Level}

-- How many of the messages are publications.
abbrev pub tells : {N : Type 0} → List (Message N) → ℕ
tells [] = 0
tells (ask c ∷ l) = tells l
tells (tell channel msg ∷ l) = 1 + tells l
tells (beat ∷ l) = tells l

abbrev pub sum : List ℕ → ℕ
sum [] = 0
sum (n ∷ l) = n + sum l

-- Each level has moved on from the start by its interval, so many times.
abbrev pub AllCounted : ℕ → List ℕ → List Level → Type 0
AllCounted start [] [] = Unit
AllCounted start [] (level ∷ levels) = ⊥
AllCounted start (n ∷ counts) [] = ⊥
AllCounted start (n ∷ counts) (level ∷ levels) =
    (level.next_send ≡ start + n * level.interval) × AllCounted start counts levels

-- One more for each level whose time has come.
abbrev pub bump : ℕ → List Level → List ℕ → List ℕ
bump now [] counts = counts
bump now (level ∷ levels) [] = []
bump now (level ∷ levels) (n ∷ counts) =
    (if ltb level.next_send now then suc n else n) ∷ bump now levels counts

suc-times : (n i : ℕ) → suc n * i ≡ n * i + i
suc-times n i = ground arith

pub bump-AllCounted :
    (start now : ℕ) (counts : List ℕ) (levels : List Level)
    → AllCounted start counts levels
    → AllCounted start (bump now levels counts) (map (advance now) levels)
bump-AllCounted start now [] [] h = tt
bump-AllCounted start now [] (level ∷ levels) h = absurd h
bump-AllCounted start now (n ∷ counts) [] h = absurd h
bump-AllCounted start now (n ∷ counts) (level ∷ levels) (e, h) =
    elim (Bool-cases (ltb level.next_send now)) [
      | inl y ↦
          rw y (
            omega (arith, e, suc-times n level.interval),
            bump-AllCounted start now counts levels h,
          )
      | inr y ↦ rw y (e, bump-AllCounted start now counts levels h)
    ]

pub sum-bump :
    (start now : ℕ) (counts : List ℕ) (levels : List Level)
    → AllCounted start counts levels
    → sum (bump now levels counts) ≡ sum counts + length (due now levels)
sum-bump start now [] [] h = refl
sum-bump start now [] (level ∷ levels) h = absurd h
sum-bump start now (n ∷ counts) [] h = absurd h
sum-bump start now (n ∷ counts) (level ∷ levels) (e, h) =
    let rest = sum-bump start now counts levels h in
    elim (Bool-cases (ltb level.next_send now)) [
      | inl y ↦ rw y (omega (arith, rest))
      | inr y ↦ rw y (omega (arith, rest))
    ]

pub tells-append : {N : Type 0} (l m : List (Message N)) → tells (l ++ m) ≡ tells l + tells m
tells-append [] m = ground arith
tells-append (ask c ∷ l) m = tells-append l m
tells-append (tell channel msg ∷ l) m = let rest = tells-append l m in omega (arith, rest)
tells-append (beat ∷ l) m = tells-append l m

tells-ask : (N : Type 0) (l : List Command) → tells {N = N} (map ask l) ≡ 0
tells-ask N [] = refl
tells-ask N (c ∷ l) = tells-ask N l

pub tells-beats : {N : Type 0} (e : Event N) → tells (beats e) ≡ 0
tells-beats opened = refl
tells-beats closed = refl
tells-beats failed = refl
tells-beats (received m) = refl
tells-beats (ticked accepts) = refl
tells-beats (ticked throws) = refl

module _ (d : Double) (p v : Vector3 d.Num) (user : Text) where
  tells-told : (levels : List Level) → tells (map (told d p v user) levels) ≡ length levels
  tells-told [] = refl
  tells-told (level ∷ levels) = let rest = tells-told levels in omega (arith, rest)

  pub tells-update_messages :
      (now : ℕ) (m : Moved) → tells (update_messages d p v now user m) ≡ length (due now m.0)
  tells-update_messages now (levels, unsubs, subs) = omega (
    arith,
    tells-append (map ask (map leave (keys unsubs)))
        (map ask (map join (keys subs)) ++ map (told d p v user) (due now levels)),
    tells-append (map ask (map join (keys subs))) (map (told d p v user) (due now levels)),
    tells-ask d.Num (map leave (keys unsubs)),
    tells-ask d.Num (map join (keys subs)),
    tells-told (due now levels),
  )
