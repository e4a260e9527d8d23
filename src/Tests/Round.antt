-- ===== src/Tests/Round.antt =====
-- The bot of WebContent/js/RunningInCircleBot1.js on fixed-point numbers.
use general_worldwide_execut.Prelude.{◌≡◌, ◌++◌, refl, none, some}
use general_worldwide_execut.Prelude.Int.{pos, scale}
use general_worldwide_execut.Prelude.Text.{codes}
use general_worldwide_execut.Bot.Ticks.{step_texts, ticks-step_texts}
use general_worldwide_execut.Bot.{Bot, new_bot, or_else, ticks}
use general_worldwide_execut.Gwems.Client.{accepts}
use general_worldwide_execut.Js.Fixed.{fixed}
use general_worldwide_execut.Js.Fixed.Laws.{fixed-IsIeee}
use general_worldwide_execut.Tests.Messages.{client, world}

abbrev bot : Bot fixed.Num
bot =
    new_bot (fixed) (codes "bot1") none (some (fixed.of_int (pos 0))) none
      (some (fixed.of_int (pos 1)))

-- A radius of zero counts as a missing one.
bot_radius : bot.radius ≡ fixed.of_int (pos 10)
unfolding new_bot or_else scale
bot_radius = refl

ticks-step_texts_example :
    (ticks fixed 3 accepts bot world).1.1.sent ≡ client.sent ++ step_texts fixed-IsIeee bot 0 3
ticks-step_texts_example = ticks-step_texts fixed-IsIeee 3 bot world.0 client
