-- ===== src/Tracker/Session/Spoken.antt =====
-- What the levels say to the server when they move and publish.
use general_worldwide_execut.Prelude.{
  ℕ, ◌≡◌, refl, ap, inl, inr, Bool, ◌||◌, Bool-cases, List, [], ◌∷◌, ◌++◌, map, arith, append-nil,
  ltb,
}
use general_worldwide_execut.Prelude.Text.{Text}
use general_worldwide_execut.Gwems.Changes.{
  join, leave, serve, serve-append, serve-join, serve-leave,
}
use general_worldwide_execut.Gwems.Serving.{
  Message, ask, tell, message_text, message_text-ask, commands_of, commands_of-append,
  commands_of-ask,
}
use general_worldwide_execut.Gwems.Sets.Laws.{has}
use general_worldwide_execut.Js.Double.{Double, IsIeee}
use general_worldwide_execut.Js.Object.{keys}
use general_worldwide_execut.Three.{Vector3}
use general_worldwide_execut.Tracker.{Level}
use general_worldwide_execut.Tracker.Session.Exchange.{AllBiased, IsExchanged}
use general_worldwide_execut.Tracker.Update.Split.{subscribes}
use general_worldwide_execut.Tracker.Update.Schedule.{advance, due, publication}
use general_worldwide_execut.Tracker.Update.Sends.{update_texts}
use general_worldwide_execut.Tracker.Update.{Moved, json_number, make_message}
use mathlib.Core.List.{map-append}

module _ (d : Double) where
  -- What a level tells when its time has come.
  abbrev pub told : Vector3 d.Num → Vector3 d.Num → Text → Level → Message d.Num
  told p v user level = tell level.channel (make_message d p v user)

  -- The messages of an update.
  abbrev pub update_messages :
      Vector3 d.Num → Vector3 d.Num → ℕ → Text → Moved → List (Message d.Num)
  update_messages p v now user (levels, unsubs, subs) =
      map ask (map leave (keys unsubs))
      ++ (map ask (map join (keys subs)) ++ map (told p v user) (due now levels))

  map-told :
      (p v : Vector3 d.Num) (user : Text) (levels : List Level)
      → map (message_text (json_number d)) (map (told p v user) levels)
        ≡ map (publication d p v user) levels
  map-told p v user [] = refl
  map-told p v user (level ∷ levels) =
      ap (λ l. publication d p v user level ∷ l) (map-told p v user levels)

  commands_of-told :
      (p v : Vector3 d.Num) (user : Text) (levels : List Level)
      → commands_of (map (told p v user) levels) ≡ []
  commands_of-told p v user [] = refl
  commands_of-told p v user (level ∷ levels) = commands_of-told p v user levels

  pub commands_of-update_messages :
      (p v : Vector3 d.Num) (now : ℕ) (user : Text) (m : Moved)
      → commands_of (update_messages p v now user m) ≡ map leave (keys m.1) ++ map join (keys m.2)
  commands_of-update_messages p v now user (levels, unsubs, subs) = rw (
    commands_of-append (map ask (map leave (keys unsubs)))
        (map ask (map join (keys subs)) ++ map (told p v user) (due now levels)),
    commands_of-append (map ask (map join (keys subs))) (map (told p v user) (due now levels)),
    commands_of-ask d.Num (map leave (keys unsubs)),
    commands_of-ask d.Num (map join (keys subs)),
    commands_of-told p v user (due now levels),
    append-nil (map join (keys subs)),
  )

  pub map-update_messages :
      (ieee : IsIeee d) (p v : Vector3 d.Num) (now : ℕ) (user : Text) (m : Moved)
      → map (message_text (json_number d)) (update_messages p v now user m)
        ≡ update_texts ieee p v now user m
  map-update_messages ieee p v now user (levels, unsubs, subs) = rw (
    map-append (message_text (json_number d)) (map ask (map leave (keys unsubs)))
        (map ask (map join (keys subs)) ++ map (told p v user) (due now levels)),
    map-append (message_text (json_number d)) (map ask (map join (keys subs)))
        (map (told p v user) (due now levels)),
    message_text-ask (json_number d) (map leave (keys unsubs)),
    message_text-ask (json_number d) (map join (keys subs)),
    map-told p v user (due now levels),
  )

-- Publishing changes neither the scales nor the subscriptions.
pub advance-AllBiased :
    (now : ℕ) (levels : List Level) → AllBiased levels → AllBiased (map (advance now) levels)
advance-AllBiased now [] h = tt
advance-AllBiased now (level ∷ levels) (own, h) = elim (Bool-cases (ltb level.next_send now)) [
  | inl e ↦ rw e (own, advance-AllBiased now levels h)
  | inr e ↦ rw e (own, advance-AllBiased now levels h)
]

pub subscribes-advance :
    (now : ℕ) (levels : List Level) (k : Text)
    → subscribes (map (advance now) levels) k ≡ subscribes levels k
subscribes-advance now [] k = refl
subscribes-advance now (level ∷ levels) k = elim (Bool-cases (ltb level.next_send now)) [
  | inl e ↦ rw e (ap (λ b. has level.subscribe_spaces k || b) (subscribes-advance now levels k))
  | inr e ↦ rw e (ap (λ b. has level.subscribe_spaces k || b) (subscribes-advance now levels k))
]

-- The server follows the move of the levels.
pub serve-moved :
    (k : Text) (unsubs subs : List (Text × Text)) (s : Text → Bool) (old new : List Level)
    → s k ≡ subscribes old k
    → IsExchanged k [] [] old (new, unsubs, subs)
    → serve (map leave (keys unsubs) ++ map join (keys subs)) s k ≡ subscribes new k
unfolding has
serve-moved k unsubs subs s old new h x = ground (
  arith,
  serve-append (map leave (keys unsubs)) (map join (keys subs)) s k,
  serve-join subs (serve (map leave (keys unsubs)) s) k,
  serve-leave unsubs s k,
  x.before,
  x.after,
  x.left,
  x.joined,
  x.apart,
)
