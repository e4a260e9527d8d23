-- ===== src/Stats.antt =====
-- `Stats` of WebContent/js/js/atw_stats.js: the panel of the durations and rates of frames.
pub mod Runs
use general_worldwide_execut.Prelude.{
  ℕ, suc, ◌+◌, ◌*◌, ◌/◌, ◌%◌, List, [], ◌∷◌, ◌++◌, Option, none, some, Bool, true, false, not, ◌==◌,
  leb, if◌then◌else◌,
}
use general_worldwide_execut.Prelude.Int.{ℤ, pos, pos_part, leb_ℤ, ◌+ℤ◌, ◌-ℤ◌}
use general_worldwide_execut.Prelude.Text.{Text, codes}
use general_worldwide_execut.Js.Numeral.{print_int, print_ℕ}

-- The variables of the closure, with the texts and the `display` of the two panels. A minimum of
-- `none` is `Infinity`. Times are milliseconds, and the clock may be set back.
pub record Stats : Type 0 where
  pub start_time : ℤ
  pub prev_time : ℤ
  pub ms : ℤ
  pub ms_min : Option ℤ
  pub ms_max : ℤ
  pub fps : ℕ
  pub fps_min : Option ℕ
  pub fps_max : ℕ
  pub frames : ℕ
  pub mode : ℕ
  pub fps_text : Text
  pub ms_text : Text
  pub graph : Text
  pub fps_shown : Bool
  pub ms_shown : Bool

-- `new Stats()` at a time.
unfoldable pub new_stats : ℤ → Stats
new_stats time = record {
  start_time = time;
  prev_time = time;
  ms = pos 0;
  ms_min = none;
  ms_max = pos 0;
  fps = 0;
  fps_min = none;
  fps_max = 0;
  frames = 0;
  mode = 0;
  fps_text = codes "FPS";
  ms_text = codes "MS";
  graph = [];
  fps_shown = true;
  ms_shown = false;
}

unfoldable pub set_mode : ℕ → Stats → Stats
set_mode value s =
    if value == 0
    then record s { mode = value; fps_shown = true; ms_shown = false }
    else if value == 1
    then record s { mode = value; fps_shown = false; ms_shown = true }
    else record s { mode = value }

-- `setMode(++mode % 2)`
unfoldable pub on_mouse_press : Stats → Stats
unfolding set_mode
on_mouse_press s = set_mode (suc s.mode % 2) s

unfoldable pub begin_frame : ℤ → Stats → Stats
begin_frame time s = record s { start_time = time }

-- `Math.min` and `Math.max`.
unfoldable pub least : {A : Type 0} → (A → A → Bool) → Option A → A → A
least le none b = b
least le (some a) b = if le a b then a else b

unfoldable pub greatest : {A : Type 0} → (A → A → Bool) → A → A → A
greatest le a b = if le a b then b else a

-- `ms + ' MS (' + msMin + '-' + msMax + ')'`
unfoldable pub range_text : Text → Text → Text → Text → Text
range_text value unit low high = value ++ (unit ++ (low ++ b'-' ∷ (high ++ codes ")")))

-- What `end` measures first.
unfoldable pub measure : ℤ → Option Text → Stats → Stats
unfolding least greatest range_text
measure time message s =
    let ms = time -ℤ s.start_time in
    let low = least leb_ℤ s.ms_min ms in
    let high = greatest leb_ℤ s.ms_max ms in
    record s {
      ms = ms;
      ms_min = some low;
      ms_max = high;
      ms_text = range_text (print_int ms) (codes " MS (") (print_int low) (print_int high);
      graph = elim message [ none ↦ s.graph | some m ↦ m ];
      frames = s.frames + 1;
    }

-- `Math.round((frames * 1000) / (time - prevTime))` for a positive span. The rounded quotient of
-- doubles is the exact one while `frames * 1000` is below 2 ^ 52.
unfoldable pub rate : ℕ → ℕ → ℕ
rate frames span = (2 * (frames * 1000) + span) / (2 * span)

-- What `end` reports after more than a second.
unfoldable pub report : ℤ → Stats → Stats
unfolding least greatest range_text rate
report time s =
    let fps = rate s.frames (pos_part (time -ℤ s.prev_time)) in
    let low = least leb s.fps_min fps in
    let high = greatest leb s.fps_max fps in
    record s {
      fps = fps;
      fps_min = some low;
      fps_max = high;
      fps_text = range_text (print_ℕ fps) (codes " FPS (") (print_ℕ low) (print_ℕ high);
      prev_time = time;
      frames = 0;
    }

-- `end(message)`; what it returns is the time.
unfoldable pub end_frame : ℤ → Option Text → Stats → Stats
unfolding measure report
end_frame time message s =
    let s' = measure time message s in
    if not (leb_ℤ time (s.prev_time +ℤ pos 1000)) then report time s' else s'

-- `update(message)`
unfoldable pub update_frame : ℤ → Option Text → Stats → Stats
unfolding end_frame
update_frame time message s = record (end_frame time message s) { start_time = time }
