-- ===== src/Stats/Runs.antt =====
-- What holds after any use of the panel.
use mathlib.Core.Path.{subst}
use general_worldwide_execut.Prelude.{
  ℕ, suc, ◌%◌, ◌≡◌, refl, ◌∙◌, List, [], ◌∷◌, Option, none, some, Bool, true, false, not, arith,
  if◌then◌else◌,
}
use general_worldwide_execut.Prelude.Int.{ℤ, leb_ℤ, ◌-ℤ◌}
use general_worldwide_execut.Prelude.Text.{Text}
use general_worldwide_execut.Stats.{
  Stats, new_stats, set_mode, on_mouse_press, begin_frame, end_frame, update_frame, least, greatest,
  measure, report,
}

-- The calls of the page and the presses of the mouse.
pub data Call : Type 0 where
  begin : ℤ → Call
  finish : ℤ → Option Text → Call
  again : ℤ → Option Text → Call
  press : Call
  show : ℕ → Call

abbrev pub call : Call → Stats → Stats
call (begin time) s = begin_frame time s
call (finish time message) s = end_frame time message s
call (again time message) s = update_frame time message s
call press s = on_mouse_press s
call (show value) s = set_mode value s

abbrev pub calls : List Call → Stats → Stats
calls [] s = s
calls (c ∷ l) s = calls l (call c s)

-- The durations that the calls measure, where the frame started at a time.
abbrev pub durations : List Call → ℤ → List ℤ
durations [] start = []
durations (begin time ∷ l) start = durations l time
durations (finish time message ∷ l) start = (time -ℤ start) ∷ durations l start
durations (again time message ∷ l) start = (time -ℤ start) ∷ durations l time
durations (press ∷ l) start = durations l start
durations (show value ∷ l) start = durations l start

-- Whether a duration lies in the range of the panel.
abbrev pub in_range : Stats → ℤ → Bool
in_range s ms = elim s.ms_min [
  | none ↦ false
  | some low ↦ if leb_ℤ low ms then leb_ℤ ms s.ms_max else false
]

abbrev pub AllInRange : Stats → List ℤ → Type 0
AllInRange s [] = Unit
AllInRange s (ms ∷ l) = (in_range s ms ≡ true) × AllInRange s l

measure-in_range :
    (time : ℤ) (message : Option Text) (s : Stats)
    → in_range (measure time message s) (time -ℤ s.start_time) ≡ true
unfolding measure least greatest
measure-in_range time message s = ground arith

measure-keeps :
    (time : ℤ) (message : Option Text) (s : Stats) (ms : ℤ)
    → in_range s ms ≡ true
    → in_range (measure time message s) ms ≡ true
unfolding measure least greatest
measure-keeps time message s ms h = ground arith

-- The range is that of the measurement, also when a report follows.
end_frame-range :
    (time : ℤ) (message : Option Text) (s : Stats) (ms : ℤ)
    → in_range (end_frame time message s) ms ≡ in_range (measure time message s) ms
unfolding end_frame report
end_frame-range time message s ms = ground arith

end_frame-start :
    (time : ℤ) (message : Option Text) (s : Stats)
    → (end_frame time message s).start_time ≡ s.start_time
unfolding end_frame measure report
end_frame-start time message s = ground arith

set_mode-range : (value : ℕ) (s : Stats) (ms : ℤ) → in_range (set_mode value s) ms ≡ in_range s ms
unfolding set_mode
set_mode-range value s ms = ground arith

set_mode-start : (value : ℕ) (s : Stats) → (set_mode value s).start_time ≡ s.start_time
unfolding set_mode
set_mode-start value s = ground arith

end_frame-keeps :
    (time : ℤ) (message : Option Text) (s : Stats) (ms : ℤ)
    → in_range s ms ≡ true
    → in_range (end_frame time message s) ms ≡ true
end_frame-keeps time message s ms h =
    end_frame-range time message s ms ∙ measure-keeps time message s ms h

call-keeps : (c : Call) (s : Stats) (ms : ℤ) → in_range s ms ≡ true → in_range (call c s) ms ≡ true
unfolding begin_frame update_frame on_mouse_press
call-keeps (begin time) s ms h = h
call-keeps (finish time message) s ms h = end_frame-keeps time message s ms h
call-keeps (again time message) s ms h = end_frame-keeps time message s ms h
call-keeps press s ms h = set_mode-range (suc s.mode % 2) s ms ∙ h
call-keeps (show value) s ms h = set_mode-range value s ms ∙ h

calls-keeps :
    (l : List Call) (s : Stats) (ms : ℤ) → in_range s ms ≡ true → in_range (calls l s) ms ≡ true
calls-keeps [] s ms h = h
calls-keeps (c ∷ l) s ms h = calls-keeps l (call c s) ms (call-keeps c s ms h)

end_frame-in_range :
    (time : ℤ) (message : Option Text) (s : Stats)
    → in_range (end_frame time message s) (time -ℤ s.start_time) ≡ true
end_frame-in_range time message s =
    end_frame-range time message s (time -ℤ s.start_time) ∙ measure-in_range time message s

-- After any sequence of calls and presses of the mouse, every duration that a frame took, from the
-- start that counts for it to its end, lies between the minimum and the maximum of the panel.
pub calls-AllInRange :
    (l : List Call) (s : Stats) → AllInRange (calls l s) (durations l s.start_time)
unfolding begin_frame update_frame on_mouse_press
calls-AllInRange [] s = tt
calls-AllInRange (begin time ∷ l) s = calls-AllInRange l (begin_frame time s)
calls-AllInRange (finish time message ∷ l) s = (
  calls-keeps l (end_frame time message s) (time -ℤ s.start_time)
      (end_frame-in_range time message s),
  subst (λ t. AllInRange (calls l (end_frame time message s)) (durations l t))
      (end_frame-start time message s) (calls-AllInRange l (end_frame time message s)),
)
calls-AllInRange (again time message ∷ l) s = (
  calls-keeps l (update_frame time message s) (time -ℤ s.start_time)
      (end_frame-in_range time message s),
  calls-AllInRange l (update_frame time message s),
)
calls-AllInRange (press ∷ l) s =
    subst (λ t. AllInRange (calls l (on_mouse_press s)) (durations l t))
      (set_mode-start (suc s.mode % 2) s) (calls-AllInRange l (on_mouse_press s))
calls-AllInRange (show value ∷ l) s =
    subst (λ t. AllInRange (calls l (set_mode value s)) (durations l t)) (set_mode-start value s)
      (calls-AllInRange l (set_mode value s))

-- Exactly one of the two panels is shown.
abbrev pub IsOneShown : Stats → Type 0
IsOneShown s = s.fps_shown ≡ not s.ms_shown

set_mode-IsOneShown : (value : ℕ) (s : Stats) → IsOneShown s → IsOneShown (set_mode value s)
unfolding set_mode
set_mode-IsOneShown value s h = ground arith

call-IsOneShown : (c : Call) (s : Stats) → IsOneShown s → IsOneShown (call c s)
unfolding begin_frame update_frame end_frame measure report on_mouse_press
call-IsOneShown (begin time) s h = h
call-IsOneShown (finish time message) s h = ground arith
call-IsOneShown (again time message) s h = ground arith
call-IsOneShown press s h = set_mode-IsOneShown (suc s.mode % 2) s h
call-IsOneShown (show value) s h = set_mode-IsOneShown value s h

calls-keep_shown : (l : List Call) (s : Stats) → IsOneShown s → IsOneShown (calls l s)
calls-keep_shown [] s h = h
calls-keep_shown (c ∷ l) s h = calls-keep_shown l (call c s) (call-IsOneShown c s h)

-- Of a new panel, exactly one of the two parts is shown after any sequence of calls and presses,
-- also after a call of `setMode` with a value that is no mode.
pub calls-IsOneShown : (time : ℤ) (l : List Call) → IsOneShown (calls l (new_stats time))
unfolding new_stats
calls-IsOneShown time l = calls-keep_shown l (new_stats time) refl
