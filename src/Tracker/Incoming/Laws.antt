-- ===== src/Tracker/Incoming/Laws.antt =====
-- What a message changes, and what it leaves.
use general_worldwide_execut.Prelude.{
  ◌≡◌, ◌⊎◌, refl, ap, sym, ◌∙◌, inl, inr, Bool-cases, Option-cases, true, false, List, [], ◌∷◌,
  ◌++◌, Option, none, some, arith,
}
use general_worldwide_execut.Prelude.Text.{Text, codes, eqb_text}
use general_worldwide_execut.Js.Coerce.{to_string, equals_text, truthy}
use general_worldwide_execut.Js.Double.{Double}
use general_worldwide_execut.Js.Json.{Value}
use general_worldwide_execut.Js.Object.{
  get, put, keys, get-put, keys-put-some, keys-put-none, get-put_self,
}
use general_worldwide_execut.Three.{Vector3}
use general_worldwide_execut.Tracker.{Tracker, Avatar, Slots, numbers}
use mathlib.Core.Path.{subst}
use general_worldwide_execut.Tracker.Incoming.{
  origin, property, coordinates, registered, assign, handle_payload, handle_incoming,
}

-- The scene holds the avatars of the map, in the order of their arrival.
abbrev pub IsShown : {N : Type 0} → Tracker N → Type 0
IsShown t = t.scene ≡ keys t.avatars

-- What is found, if anything is, has the property.
abbrev pub IfSome : {S : Type 0} → (S → Type 0) → Option S → Type 0
IfSome P none = Unit
IfSome P (some s) = P s

pub IfSome-some :
    {S : Type 0} (P : S → Type 0) (r : Option S) (s : S) → IfSome P r → r ≡ some s → P s
IfSome-some P r s h e = subst (IfSome P) e h

module _ (d : Double) where
  registered-IsShown :
      (built : Option (Vector3 d.Num)) (id : Text) (t : Tracker d.Num)
      → IsShown t
      → IfSome (λ r. IsShown r.1 × (get r.1.avatars id ≡ some r.0)) (registered d built id t)
  unfolding registered
  registered-IsShown built id t h = elim (Option-cases (get t.avatars id)) [
    | inl e ↦ elim (Option-cases built) [
      | inl b ↦ rw (e, b, registered) tt
      | inr (place, b) ↦
          rw (e, b, registered)
            (
              ap (λ l. l ++ id ∷ []) h ∙ sym (keys-put-none t.avatars id _ e),
              get-put_self t.avatars id _,
            )
    ]
    | inr (a, e) ↦ rw (e, registered) (h, e)
  ]

  put-IsShown :
      (id : Text) (a w : Avatar d.Num) (t : Tracker d.Num)
      → IsShown t
      → get t.avatars id ≡ some w
      → IsShown (record t { avatars = put t.avatars id a })
  put-IsShown id a w t h e = h ∙ sym (keys-put-some t.avatars id a w e)

  assign-IsShown :
      (id : Text) (p v : Option (Value d.Num)) (a : Avatar d.Num) (t : Tracker d.Num)
      → IsShown t
      → get t.avatars id ≡ some a
      → IsShown (assign d id p v a t).0
  unfolding assign
  assign-IsShown id p v a t h e = elim (Option-cases (coordinates p)) [
    | inl ep ↦ rw (ep, assign) h
    | inr (place, ep) ↦ elim (Option-cases (coordinates v)) [
      | inl ev ↦ rw (ep, ev, assign) (put-IsShown id _ a t h e)
      | inr (velocity, ev) ↦ rw (ep, ev, assign) (put-IsShown id _ a t h e)
    ]
  ]

  handle_payload-IsShown :
      (built : Option (Vector3 d.Num)) (payload id : Value d.Num) (t : Tracker d.Num)
      → IsShown t
      → IsShown (handle_payload d built payload id t).0
  unfolding handle_payload
  handle_payload-IsShown built payload id t h = elim (Bool-cases (equals_text d id t.user_hash)) [
    | inl e ↦ rw (e, handle_payload) h
    | inr e ↦ elim (Option-cases (registered d built (to_string d id) t)) [
      | inl r ↦ rw (e, r, handle_payload) h
      | inr ((a, u), r) ↦
          let (shown, own) =
            IfSome-some _ (registered d built (to_string d id) t) (a, u)
              (registered-IsShown built (to_string d id) t h) r in
          rw (e, r, handle_payload)
            (assign-IsShown (to_string d id) (property payload (codes "p"))
              (property payload (codes "v")) a u shown own)
    ]
  ]

  -- Every message keeps the scene in step with the map of the avatars, also a message that throws
  -- half-way.
  pub handle_incoming-IsShown :
      (built : Option (Vector3 d.Num)) (payload : Value d.Num) (t : Tracker d.Num)
      → IsShown t
      → IsShown (handle_incoming d built payload t).0
  unfolding handle_incoming
  handle_incoming-IsShown built payload t h =
      elim (Bool-cases (truthy d (property payload (codes "@")))) [
        | inl e ↦ rw (e, handle_incoming) h
        | inr e ↦ elim (Option-cases (property payload (codes "id"))) [
          | inl ei ↦ rw (e, ei, handle_incoming) h
          | inr (id, ei) ↦ elim (Bool-cases (truthy d (some id))) [
            | inl et ↦ rw (e, ei, et, handle_incoming) (handle_payload-IsShown built payload id t h)
            | inr et ↦ rw (e, ei, et, handle_incoming) h
          ]
        ]
      ]

  -- What a call for one avatar leaves as it is.
  pub record IsFrame (id : Text) (t u : Tracker d.Num) : Type 0 where
    pub others : (j : Text) → (eqb_text id j ≡ true) ⊎ (get u.avatars j ≡ get t.avatars j)
    pub levels : u.intervals ≡ t.intervals
    pub count : u.self_count ≡ t.self_count
    pub user : u.user_hash ≡ t.user_hash

  put-others :
      (id j : Text) (a : Avatar d.Num) (o : List (Text × Avatar d.Num))
      → (eqb_text id j ≡ true) ⊎ (get (put o id a) j ≡ get o j)
  put-others id j a o = ground (arith, get-put o id j a)

  others_both : {A B : Type 0} {x y z : A} → B ⊎ (x ≡ y) → B ⊎ (y ≡ z) → B ⊎ (x ≡ z)
  others_both (inl b) q = inl b
  others_both (inr e) (inl b) = inl b
  others_both (inr e) (inr f) = inr (e ∙ f)

  registered-IsFrame :
      (built : Option (Vector3 d.Num)) (id : Text) (t : Tracker d.Num)
      → IfSome (λ r. IsFrame id t r.1) (registered d built id t)
  unfolding registered
  registered-IsFrame built id t = elim (Option-cases (get t.avatars id)) [
    | inl e ↦ elim (Option-cases built) [
      | inl b ↦ rw (e, b, registered) tt
      | inr (place, b) ↦
          rw (e, b, registered)
            (record {
              others = λ j. put-others id j _ t.avatars;
              levels = refl;
              count = refl;
              user = refl;
            })
    ]
    | inr (a, e) ↦
        rw (e, registered)
          (record { others = λ j. inr refl; levels = refl; count = refl; user = refl })
  ]

  -- With a builder there is an avatar.
  registered-some :
      (built : Vector3 d.Num) (id : Text) (t : Tracker d.Num)
      → (r : Avatar d.Num × Tracker d.Num) × (registered d (some built) id t ≡ some r)
  unfolding registered
  registered-some built id t = elim (Option-cases (get t.avatars id)) [
    | inl e ↦
        let a : Avatar d.Num = record { place = numbers built; velocity = numbers (origin d) } in
        (
          (a, record t { avatars = put t.avatars id a; scene = t.scene ++ id ∷ [] }),
          rw (e, registered) refl,
        )
    | inr (a, e) ↦ ((a, t), rw (e, registered) refl)
  ]

  pub handle_incoming-place :
      (built : Vector3 d.Num) (place velocity : Slots d.Num) (payload id : Value d.Num)
      (t : Tracker d.Num)
      → truthy d (property payload (codes "@")) ≡ false
      → property payload (codes "id") ≡ some id
      → truthy d (some id) ≡ true
      → equals_text d id t.user_hash ≡ false
      → coordinates (property payload (codes "p")) ≡ some place
      → coordinates (property payload (codes "v")) ≡ some velocity
      → let (u, threw) = handle_incoming d (some built) payload t in
        (threw ≡ false)
        × (get u.avatars (to_string d id) ≡ some (record { place = place; velocity = velocity }))
        × IsFrame (to_string d id) t u
  unfolding handle_incoming handle_payload assign
  handle_incoming-place built place velocity payload id t e ei et eq ep ev =
      let (r, er) = registered-some built (to_string d id) t in
      let f =
        IfSome-some (λ r. IsFrame (to_string d id) t r.1)
          (registered d (some built) (to_string d id) t) r
          (registered-IsFrame (some built) (to_string d id) t) er in
      rw (e, ei, et, eq, er, ep, ev, handle_incoming, handle_payload, assign)
        (
          refl,
          get-put_self r.1.avatars (to_string d id) _,
          record {
            others = λ j. others_both (put-others (to_string d id) j _ r.1.avatars) (f.others j);
            levels = f.levels;
            count = f.count;
            user = f.user;
          },
        )
