-- ===== src/Tracker/Session/Deaf.antt =====
-- The larger levels subscribe to channels on which hardly anybody publishes.
use general_worldwide_execut.Prelude.{ℕ, ◌≡◌, sym, refl, false, List, [], ◌∷◌, some, arith, Option}
use general_worldwide_execut.Prelude.Int.{pos}
use general_worldwide_execut.Prelude.Text.{Text}
use general_worldwide_execut.Gwems.Messages.{World}
use general_worldwide_execut.Js.Double.{Double, IsIeee}
use general_worldwide_execut.QuadSpaces.Channel.{HasBias, decompose-HasBias}
use general_worldwide_execut.QuadSpaces.Surrounding.Loop.{Gives, Gives-map}
use general_worldwide_execut.QuadSpaces.{decompose, list_to_string}
use general_worldwide_execut.Three.{Vector3}
use general_worldwide_execut.Tracker.Session.Exchange.{AllBiased, IsAbsent, subscribes-HasBias}
use general_worldwide_execut.Tracker.Update.Split.{subscribes}
use general_worldwide_execut.Tracker.Session.Subscriptions.{IsFaithful, session-IsFaithful}
use general_worldwide_execut.Tracker.Session.Total.{logscales, six_scales}
use general_worldwide_execut.Tracker.Session.{Step, session}
use general_worldwide_execut.Tracker.{Level, new_tracker, min_level}
use mathlib.Core.Path.{subst}

-- The levels behind the smallest.
abbrev pub larger_levels : List Level → List Level
larger_levels [] = []
larger_levels (level ∷ levels) = levels

larger_levels-HasBias :
    (k : Text) (levels : List Level)
    → HasBias min_level k
    → logscales levels ≡ six_scales
    → AllBiased levels
    → subscribes (larger_levels levels) k ≡ false
larger_levels-HasBias k [] h e b = refl
larger_levels-HasBias k (level ∷ levels) h e (_, b) =
    let rest : logscales levels ≡ pos 4 ∷ pos 6 ∷ pos 8 ∷ pos 10 ∷ pos 12 ∷ [] = cc e in
    let apart : IsAbsent min_level (pos 4 ∷ pos 6 ∷ pos 8 ∷ pos 10 ∷ pos 12 ∷ []) = ground arith in
    subscribes-HasBias min_level k levels h (subst (IsAbsent min_level) (sym rest) apart) b

-- After any session, no level but the smallest subscribes to the channel of a list of names that
-- `decompose` finds for some position at the smallest level, whoever is there: what is published on
-- such a channel reaches a user by the smallest level or not at all.
pub session-larger_levels :
    {d : Double} (ieee : IsIeee d) (built : Option (Vector3 d.Num)) (user : Text) (start : ℕ)
    (w : World d.Num) (steps : List (Step d.Num)) (q : Vector3 d.Num) (l : List Text)
    → decompose d q min_level ≡ some l
    → Gives
        (λ r. subscribes (larger_levels r.0.intervals) (list_to_string l) ≡ false)
        (session d built steps (new_tracker user start, w))
session-larger_levels {d} ieee built user start w steps q l e =
    Gives-map (IsFaithful ieee user w.1.sent) _ (session d built steps (new_tracker user start, w))
      (session-IsFaithful ieee built user start w steps)
      λ r (h, (b, _)).
        larger_levels-HasBias (list_to_string l) r.0.intervals (decompose-HasBias d q min_level l e)
          h.scales b
