-- ===== src/Tracker/Session/Settled.antt =====
-- What a session keeps of the channels and the subscriptions of the levels.
use general_worldwide_execut.Prelude.{
  ℕ, zero, suc, ◌+◌, ◌*◌, ◌≡◌, refl, sym, inl, inr, Bool-cases, List, [], ◌∷◌, map, some, arith,
  ltb, Option,
}
use general_worldwide_execut.Prelude.Int.{ℤ, pos, ◌+ℤ◌}
use general_worldwide_execut.Prelude.Text.{Text}
use general_worldwide_execut.Gwems.Messages.{World}
use general_worldwide_execut.Js.Double.{Double, IsIeee}
use general_worldwide_execut.QuadSpaces.{decompose}
use general_worldwide_execut.QuadSpaces.Surrounding.Loop.{Gives, Gives-both, Gives-map}
use general_worldwide_execut.Three.{Vector3}
use general_worldwide_execut.Tracker.{
  Level, new_tracker, new_level, make_levels, level_count, min_level,
}
use general_worldwide_execut.Tracker.Session.Around.{
  AllAround, advance-AllAround, refresh-AllAround,
}
use general_worldwide_execut.Tracker.Session.Exchange.{IsAbsent}
use general_worldwide_execut.Tracker.Session.Invariant.{IsKeeping, session-levels}
use general_worldwide_execut.Tracker.Session.Total.{
  logscales, logscales-AllScales, six_scales, six_scales_all,
}
use general_worldwide_execut.Tracker.Session.Tuned.{
  AllTuned, AllBlank, IsApart, IsConsistent, decompose-IsAddress, refresh-AllTuned,
}
use general_worldwide_execut.Tracker.Session.{Step, session}
use general_worldwide_execut.Tracker.Update.{level_channel, refresh}
use general_worldwide_execut.Tracker.Update.Follow.{AllScales}
use general_worldwide_execut.Tracker.Update.Schedule.{advance}
use mathlib.Core.Path.{subst}

pub advance-AllTuned :
    (now : ℕ) (lodlist : List Text) (i : ℕ) (levels : List Level)
    → AllTuned lodlist i levels
    → AllTuned lodlist i (map (advance now) levels)
unfolding level_channel
advance-AllTuned now lodlist i [] h = tt
advance-AllTuned now lodlist i (level ∷ levels) (e, h) =
    elim (Bool-cases (ltb level.next_send now)) [
      | inl due ↦ rw due (e, advance-AllTuned now lodlist (i + 1) levels h)
      | inr not_due ↦ rw not_due (e, advance-AllTuned now lodlist (i + 1) levels h)
    ]

advance-AllBlank :
    (now : ℕ) (levels : List Level) → AllBlank levels → AllBlank (map (advance now) levels)
advance-AllBlank now [] h = tt
advance-AllBlank now (level ∷ levels) (e, h) = elim (Bool-cases (ltb level.next_send now)) [
  | inl due ↦ rw due (e, advance-AllBlank now levels h)
  | inr not_due ↦ rw not_due (e, advance-AllBlank now levels h)
]

-- The levels are tuned to the names of a position, and subscribe around such positions.
module _ (d : Double) where
  abbrev pub IsSettled : List Level → Type 0
  IsSettled levels = IsConsistent 0 levels × AllAround d 0 levels

  -- The same for the names that `update` has computed.
  abbrev pub IsSettledOn : List Text → List Level → Type 0
  IsSettledOn lodlist levels = AllTuned lodlist 0 levels × AllAround d 0 levels

  advance-IsSettled :
      (now : ℕ) (levels : List Level) → IsSettled levels → IsSettled (map (advance now) levels)
  advance-IsSettled now levels (inl blank, a) =
      (inl (advance-AllBlank now levels blank), advance-AllAround d now 0 levels a)
  advance-IsSettled now levels (inr (old, b, t), a) =
      (inr (old, b, advance-AllTuned now old 0 levels t), advance-AllAround d now 0 levels a)

six-IsApart : (levels : List Level) → logscales levels ≡ six_scales → IsApart 0 levels
six-IsApart [] h = tt
six-IsApart (level ∷ levels) h =
    let rest : logscales levels ≡ pos 4 ∷ pos 6 ∷ pos 8 ∷ pos 10 ∷ pos 12 ∷ [] = cc h in
    let apart : IsAbsent min_level (pos 4 ∷ pos 6 ∷ pos 8 ∷ pos 10 ∷ pos 12 ∷ []) = ground arith in
    (inl refl, subst (IsAbsent min_level) (sym rest) apart)

AllBlank-AllAround :
    (d : Double) (i : ℕ) (levels : List Level) → AllBlank levels → AllAround d i levels
AllBlank-AllAround d i [] h = tt
AllBlank-AllAround d i (level ∷ levels) (e, h) = (inl e, AllBlank-AllAround d (i + 1) levels h)

make_levels-AllBlank : (n interval time : ℕ) (i : ℤ) → AllBlank (make_levels n i interval time)
unfolding make_levels new_level
make_levels-AllBlank zero interval time i = tt
make_levels-AllBlank (suc n) interval time i =
    (refl, make_levels-AllBlank n (interval * 2) time (i +ℤ pos 2))

module _ {d : Double} (ieee : IsIeee d) where
  pub refresh-IsSettledOn :
      (p : Vector3 d.Num) (lodlist : List Text) (levels : List Level)
      → decompose d p min_level ≡ some lodlist
      → logscales levels ≡ six_scales
      → IsSettled d levels
      → Gives (λ m. IsSettledOn d lodlist m.0) (refresh d p lodlist levels 0 [] [])
  refresh-IsSettledOn p lodlist levels el scales (c, a) =
      let all : AllScales levels = logscales-AllScales levels (rw scales six_scales_all) in
      Gives-both (λ m. AllTuned lodlist 0 m.0) (λ m. AllAround d 0 m.0)
        (refresh d p lodlist levels 0 [] [])
        (refresh-AllTuned ieee p lodlist levels 0 [] [] (decompose-IsAddress d p lodlist el) all
          (six-IsApart levels scales) c)
        (refresh-AllAround ieee p lodlist levels 0 [] [] el all a)

  pub session-IsSettled :
      (built : Option (Vector3 d.Num)) (user : Text) (start : ℕ) (w : World d.Num)
      (steps : List (Step d.Num))
      → Gives
          (IsKeeping ieee user (IsSettled d))
          (session d built steps (new_tracker user start, w))
  unfolding new_tracker
  session-IsSettled built user start w steps =
      let blank = make_levels-AllBlank level_count 200 start min_level in
      session-levels ieee user (IsSettled d)
        (λ p lodlist levels el scales h.
          Gives-map (λ m. IsSettledOn d lodlist m.0) (λ m. IsSettled d m.0)
            (refresh d p lodlist levels 0 [] []) (refresh-IsSettledOn p lodlist levels el scales h)
            λ m (t, a). (inr (lodlist, decompose-IsAddress d p lodlist el, t), a))
        (advance-IsSettled d) built start w steps
        (inl blank, AllBlank-AllAround d 0 (make_levels level_count min_level 200 start) blank)
