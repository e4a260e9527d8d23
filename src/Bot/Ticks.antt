-- ===== src/Bot/Ticks.antt =====
-- What the bot has sent after a number of ticks.
use general_worldwide_execut.Prelude.{
  ℕ, zero, suc, ◌≡◌, refl, sym, ap, ◌∙◌, List, [], ◌∷◌, ◌++◌, append_assoc, append-nil, arith,
}
use general_worldwide_execut.Prelude.Int.{ℤ, pos, negsuc}
use general_worldwide_execut.Prelude.Text.{Text, codes}
use general_worldwide_execut.Bot.{Bot, publish_space, deres, xyz, tick_message, ticks}
use general_worldwide_execut.Gwems.Client.{Client, accepts, send}
use general_worldwide_execut.Gwems.Messages.{
  Templates, templates, publish_object, get_publish_string,
}
use general_worldwide_execut.Js.Double.{Double, IsExact, IsIeee}
use general_worldwide_execut.Js.Word.{IsInt32}
use general_worldwide_execut.Js.Json.{Value, text, object, Members, end, member, stringify}
use general_worldwide_execut.Tracker.Update.{json_number}

-- A 32-bit integer is exact.
IsInt32-IsExact : (n : ℤ) → IsInt32 n → IsExact n
IsInt32-IsExact n h = omega (arith, h)

module _ {d : Double} (ieee : IsIeee d) where
  -- The integer `k` of the value that a number is cut to, `k / 128`.
  abbrev pub in_128ths : d.Num → ℤ
  in_128ths a = d.to_int32 (d.mul a (d.of_int (pos 128)))

  -- The value itself: `k * 2 ^ -7`.
  abbrev pub whole_128ths : d.Num → d.Num
  whole_128ths a = ieee.scaled (in_128ths a) (negsuc 6)

  deres-whole_128ths : (a : d.Num) → deres d a ≡ whole_128ths a
  unfolding deres
  deres-whole_128ths a =
      ieee.unit-mul (in_128ths a)
        (IsInt32-IsExact (in_128ths a) (ieee.to_int32_range (d.mul a (d.of_int (pos 128)))))

  -- The angle after a number of steps.
  abbrev pub angle_at : Bot d.Num → ℕ → d.Num
  angle_at b zero = b.angle
  angle_at b (suc k) = d.add (angle_at b k) (d.mul b.angular_velocity (d.of_int (pos 1)))

  -- The place on the circle, from the centre.
  abbrev pub circle_at : Bot d.Num → ℕ → d.Num × d.Num
  circle_at b k = (d.mul b.radius (d.cos (angle_at b k)), d.mul b.radius (d.sin (angle_at b k)))

  -- The message of the step from one place of the circle to another.
  abbrev pub step_message : Bot d.Num → d.Num × d.Num → d.Num × d.Num → Value d.Num
  step_message b (x, z) (next_x, next_z) = object (
      member (codes "id") (text b.id) (
        member (codes "position")
          (xyz d (whole_128ths (d.add x b.center.x))
            (whole_128ths (d.add (d.of_int (pos 0)) b.center.y))
            (whole_128ths (d.add z b.center.z)))
          (member (codes "velocity")
            (xyz d (d.div (d.sub next_x x) (d.of_int (pos 1))) (d.of_int (pos 0))
              (d.div (d.sub next_z z) (d.of_int (pos 1))))
            end)))

  -- The text that publishes a message.
  abbrev pub publication_of : Value d.Num → Text
  publication_of m =
      stringify (json_number d)
        (publish_object (record templates { publish_channel = publish_space; publish_msg = m }))

  -- The texts of the steps from `k` on.
  abbrev pub step_texts : Bot d.Num → ℕ → ℕ → List Text
  step_texts b k zero = []
  step_texts b k (suc n) =
      publication_of (step_message b (circle_at b k) (circle_at b (suc k))) ∷ step_texts b (suc k) n

  send-object :
      (m : Members d.Num) (c : Client d.Num)
      → (send accepts (stringify (json_number d) (object m)) c).sent
        ≡ c.sent ++ stringify (json_number d) (object m) ∷ []
  unfolding send stringify
  send-object m c = refl

  -- The bot after its first steps.
  abbrev bot_at : Bot d.Num → ℕ → Bot d.Num
  bot_at b k = record b { angle = angle_at b k }

  tick_message-step :
      (k : ℕ) (b : Bot d.Num)
      → tick_message d (bot_at b k) ≡ step_message b (circle_at b k) (circle_at b (suc k))
  unfolding tick_message
  tick_message-step k b =
      let (x, z) = circle_at b k in
      rw
        (
          deres-whole_128ths (d.add x b.center.x),
          deres-whole_128ths (d.add (d.of_int (pos 0)) b.center.y),
          deres-whole_128ths (d.add z b.center.z),
        )
        refl

  ticks-steps :
      (n k : ℕ) (b : Bot d.Num) (t : Templates d.Num) (c : Client d.Num)
      → (ticks d n accepts (bot_at b k) (t, c)).1.1.sent ≡ c.sent ++ step_texts b k n
  unfolding ticks tick_message get_publish_string
  ticks-steps zero k b t c = sym (append-nil c.sent)
  ticks-steps (suc n) k b t c =
      let rest = step_texts b (suc k) n in
      ticks-steps n (suc k) b _ _
      ∙ ap (λ l. l ++ rest) (send-object _ c)
      ∙ ap (λ m. (c.sent ++ publication_of m ∷ []) ++ rest) (tick_message-step k b)
      ∙ append_assoc c.sent _ rest

  -- On an open socket, `n` ticks send `n` messages and nothing else: the message of step `k` has the
  -- place of the circle after `k` steps, moved by the centre, of which each coordinate `a` is the exact
  -- value n * 2 ^ -7 with n the 32-bit integer of `a * 128`; its velocity is the uncut difference to
  -- the place after `k + 1` steps.
  pub ticks-step_texts :
      (n : ℕ) (b : Bot d.Num) (t : Templates d.Num) (c : Client d.Num)
      → (ticks d n accepts b (t, c)).1.1.sent ≡ c.sent ++ step_texts b 0 n
  ticks-step_texts n b t c = ticks-steps n 0 b t c
