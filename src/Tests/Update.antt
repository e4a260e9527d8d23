-- ===== src/Tests/Update.antt =====
-- What a tracker sends at a concrete position.
use general_worldwide_execut.Prelude.{◌≡◌, ◌++◌, refl, List, [], some}
use general_worldwide_execut.Prelude.Int.{pos}
use general_worldwide_execut.Prelude.Text.{Text}
use general_worldwide_execut.Gwems.Client.{accepts}
use general_worldwide_execut.Js.Fixed.{fixed}
use general_worldwide_execut.Js.Fixed.Laws.{fixed-IsIeee}
use general_worldwide_execut.QuadSpaces.{decompose}
use general_worldwide_execut.QuadSpaces.Surrounding.Loop.{Gives}
use general_worldwide_execut.Tests.Messages.{world}
use general_worldwide_execut.Tests.Motion.{place, velocity, number, tracker, tracker-AllScales}
use general_worldwide_execut.Tracker.Update.Split.{IsSplit}
use general_worldwide_execut.Tracker.Update.Sends.{update_texts, update-update_texts}
use general_worldwide_execut.Tracker.Update.{Moved, refresh, update}
use general_worldwide_execut.Tracker.{min_level}

update-update_texts_example :
    (lodlist : List Text) × (moved : Moved) × IsSplit [] [] tracker.intervals moved
    × (decompose fixed place min_level ≡ some lodlist)
    × (refresh fixed place lodlist tracker.intervals 0 [] [] ≡ some moved)
    × Gives
        (λ r.
          r.1.1.sent
          ≡ world.1.sent ++ update_texts fixed-IsIeee place velocity 2000 tracker.user_hash moved)
        (update fixed accepts 2000 place velocity (number (pos 1)) tracker world)
update-update_texts_example =
    update-update_texts fixed-IsIeee place velocity 2000 (number (pos 1)) tracker world refl
      tracker-AllScales
