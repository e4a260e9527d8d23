-- ===== src/Tests/Panel.antt =====
-- The panel of WebContent/js/js/atw_stats.js at concrete times.
use general_worldwide_execut.Prelude.{◌≡◌, refl, List, [], ◌∷◌, none, some}
use general_worldwide_execut.Prelude.Int.{pos, ◌+ℤ◌, ◌-ℤ◌}
use general_worldwide_execut.Prelude.Text.{codes}
use general_worldwide_execut.Js.Numeral.{print_int, print_ℕ}
use general_worldwide_execut.Stats.Runs.{
  Call, begin, finish, again, press, show, calls, durations, AllInRange, IsOneShown,
  calls-AllInRange, calls-IsOneShown,
}
use general_worldwide_execut.Stats.{
  new_stats, set_mode, on_mouse_press, begin_frame, end_frame, update_frame, measure, report, least,
  greatest, range_text, rate,
}

abbrev sequence : List Call
sequence =
    begin (pos 100)
    ∷ finish (pos 116) none
    ∷ press
    ∷ again (pos 130) (some (codes "hi"))
    ∷ show 7
    ∷ finish (pos 1150) none
    ∷ []

sequence_runs :
    ((calls sequence (new_stats (pos 50))).ms_text ≡ codes "1020 MS (16-1020)")
    × ((calls sequence (new_stats (pos 50))).fps_text ≡ codes "3 FPS (3-3)")
unfolding new_stats set_mode on_mouse_press begin_frame end_frame update_frame measure report least
    greatest range_text rate print_int print_ℕ ◌+ℤ◌ ◌-ℤ◌
sequence_runs = (refl, refl)

calls-AllInRange_example :
    AllInRange
      (calls sequence (new_stats (pos 50)))
      (durations sequence (new_stats (pos 50)).start_time)
calls-AllInRange_example = calls-AllInRange sequence (new_stats (pos 50))

calls-IsOneShown_example : IsOneShown (calls sequence (new_stats (pos 50)))
calls-IsOneShown_example = calls-IsOneShown (pos 50) sequence
