-- ===== src/Tracker/Session/Kept.antt =====
-- No message changes the levels or the user.
use general_worldwide_execut.Prelude.{
  ◌≡◌, refl, ◌∙◌, inl, inr, Bool-cases, Option-cases, Option, some,
}
use general_worldwide_execut.Prelude.Text.{Text, codes}
use general_worldwide_execut.Js.Coerce.{to_string, equals_text, truthy}
use general_worldwide_execut.Js.Double.{Double}
use general_worldwide_execut.Js.Json.{Value}
use general_worldwide_execut.Js.Object.{get}
use general_worldwide_execut.Three.{Vector3}
use general_worldwide_execut.Tracker.{Tracker, Avatar}
use general_worldwide_execut.Tracker.Incoming.Laws.{IfSome, IfSome-some}
use general_worldwide_execut.Tracker.Incoming.{
  property, coordinates, registered, assign, handle_payload, handle_incoming,
}

pub record IsKept {N : Type 0} (t u : Tracker N) : Type 0 where
  pub levels : u.intervals ≡ t.intervals
  pub user : u.user_hash ≡ t.user_hash

abbrev kept : {N : Type 0} (t : Tracker N) → IsKept t t
kept t = record { levels = refl; user = refl }

module _ (d : Double) where
  registered-IsKept :
      (built : Option (Vector3 d.Num)) (id : Text) (t : Tracker d.Num)
      → IfSome (λ r. IsKept t r.1) (registered d built id t)
  unfolding registered
  registered-IsKept built id t = elim (Option-cases (get t.avatars id)) [
    | inl e ↦ elim (Option-cases built) [
      | inl b ↦ rw (e, b, registered) tt
      | inr (place, b) ↦ rw (e, b, registered) (record { levels = refl; user = refl })
    ]
    | inr (a, e) ↦ rw (e, registered) (kept t)
  ]

  assign-IsKept :
      (id : Text) (p v : Option (Value d.Num)) (a : Avatar d.Num) (t : Tracker d.Num)
      → IsKept t (assign d id p v a t).0
  unfolding assign
  assign-IsKept id p v a t = elim (Option-cases (coordinates p)) [
    | inl e ↦ rw (e, assign) (kept t)
    | inr (place, e) ↦ elim (Option-cases (coordinates v)) [
      | inl g ↦ rw (e, g, assign) (record { levels = refl; user = refl })
      | inr (velocity, g) ↦ rw (e, g, assign) (record { levels = refl; user = refl })
    ]
  ]

  handle_payload-IsKept :
      (built : Option (Vector3 d.Num)) (payload id : Value d.Num) (t : Tracker d.Num)
      → IsKept t (handle_payload d built payload id t).0
  unfolding handle_payload
  handle_payload-IsKept built payload id t = elim (Bool-cases (equals_text d id t.user_hash)) [
    | inl e ↦ rw (e, handle_payload) (record { levels = refl; user = refl })
    | inr e ↦ elim (Option-cases (registered d built (to_string d id) t)) [
      | inl r ↦ rw (e, r, handle_payload) (kept t)
      | inr ((a, u), r) ↦
          let first =
            IfSome-some (λ r. IsKept t r.1) (registered d built (to_string d id) t) (a, u)
              (registered-IsKept built (to_string d id) t) r in
          let second =
            assign-IsKept (to_string d id) (property payload (codes "p"))
              (property payload (codes "v")) a u in
          rw (e, r, handle_payload)
            (record { levels = second.levels ∙ first.levels; user = second.user ∙ first.user })
    ]
  ]

  pub handle_incoming-IsKept :
      (built : Option (Vector3 d.Num)) (payload : Value d.Num) (t : Tracker d.Num)
      → IsKept t (handle_incoming d built payload t).0
  unfolding handle_incoming
  handle_incoming-IsKept built payload t =
      elim (Bool-cases (truthy d (property payload (codes "@")))) [
        | inl e ↦ rw (e, handle_incoming) (kept t)
        | inr e ↦ elim (Option-cases (property payload (codes "id"))) [
          | inl ei ↦ rw (e, ei, handle_incoming) (kept t)
          | inr (id, ei) ↦ elim (Bool-cases (truthy d (some id))) [
            | inl et ↦ rw (e, ei, et, handle_incoming) (handle_payload-IsKept built payload id t)
            | inr et ↦ rw (e, ei, et, handle_incoming) (kept t)
          ]
        ]
      ]
