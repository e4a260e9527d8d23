-- ===== src/Moving/Consistent.antt =====
-- The map of `VelocityObjects` and its container agree.
use general_worldwide_execut.Prelude.{
  ℕ, suc, ◌<◌, List, [], ◌∷◌, Option, none, some, false, ◌≡◌, refl, arith,
}
use general_worldwide_execut.Prelude.Text.{Text}
use general_worldwide_execut.Js.Double.{Double}
use general_worldwide_execut.Js.Object.{get}
use general_worldwide_execut.Three.{Vector3}
use general_worldwide_execut.Moving.{
  Container, IsContainer, Objects, new_objects, put_object, build, construct, get_object,
  get_or_construct, update_objects,
}
use general_worldwide_execut.Moving.Refs.{
  holds, AreDistinct, AreOlder, holds-put, put-AreDistinct, AreOlder-holds, AreOlder-le,
  put-AreOlder,
}

-- No object has two ids, the references to come are new, and the container shows the objects of
-- the map and no others.
pub record IsConsistent (c : Container) {N : Type 0} (s : Objects N c.Children) : Type 0 where
  pub distinct : AreDistinct s.map
  pub older : AreOlder s.fresh s.map
  pub shown : (r : ℕ) → c.shows s.container r ≡ holds s.map r

module _ (c : Container) (h : IsContainer c) {N : Type 0} where
  pub new_objects-IsConsistent : IsConsistent c (new_objects c {N = N})
  unfolding new_objects holds
  new_objects-IsConsistent = record { distinct = tt; older = tt; shown = λ r. h.shows-empty r }

  -- Putting an object that the map does not hold.
  pub put_object-IsConsistent :
      (id : Text) (r : ℕ) (s : Objects N c.Children)
      → IsConsistent c s
      → holds s.map r ≡ false
      → r < s.fresh
      → IsConsistent c (put_object c id r s)
  unfolding put_object
  put_object-IsConsistent id r s g e b = record {
    distinct = put-AreDistinct s.map id r e g.distinct;
    older = put-AreOlder s.fresh s.map id r g.older b;
    shown = λ p.
        rw
          (
            h.shows-add r p (c.remove (get s.map id) s.container),
            h.shows-remove (get s.map id) p s.container,
            g.shown p,
            holds-put s.map id r p g.distinct,
          )
          refl;
  }

  pub build-IsConsistent :
      (built : Vector3 N) (velocity : Option (Vector3 N)) (s : Objects N c.Children)
      → IsConsistent c s
      → IsConsistent c (build c built velocity s)
  unfolding build
  build-IsConsistent built velocity s g = record {
    distinct = g.distinct;
    older = AreOlder-le s.fresh (suc s.fresh) s.map g.older (omega arith);
    shown = g.shown;
  }

  pub construct-IsConsistent :
      (built : Vector3 N) (id : Text) (velocity : Option (Vector3 N)) (s : Objects N c.Children)
      → IsConsistent c s
      → IsConsistent c (construct c built id velocity s).1
  unfolding construct
  construct-IsConsistent built id none s g =
      let held : IsConsistent c (build c built none s) = build-IsConsistent built none s g in
      record { distinct = held.distinct; older = held.older; shown = held.shown }
  construct-IsConsistent built id (some v) s g =
      put_object-IsConsistent id s.fresh (build c built (some v) s)
        (build-IsConsistent built (some v) s g)
        (AreOlder-holds s.fresh s.map s.fresh g.older (omega arith)) (omega arith)

  pub get_or_construct-IsConsistent :
      (built : Vector3 N) (id : Text) (velocity : Option (Vector3 N)) (s : Objects N c.Children)
      → IsConsistent c s
      → IsConsistent c (get_or_construct c built id velocity s).1
  unfolding get_or_construct get_object
  get_or_construct-IsConsistent built id velocity s g =
      elim (get s.map id)
        as (λ x.
          let result : ℕ × Objects N c.Children = elim x [
            | some r ↦ (r, s)
            | none ↦ construct c built id velocity s
          ] in
          IsConsistent c result.1) [
            | some r ↦ g
            | none ↦ construct-IsConsistent built id velocity s g
          ]

-- What the page calls: `getOrConstructDefault` on a message and `update` on a frame.
pub data Call (N : Type 0) : Type 0 where
  request : Vector3 N → Text → Option (Vector3 N) → Call N
  advance : N → Call N

module _ (c : Container) (d : Double) where
  open d use {Num}

  unfoldable pub call : Call Num → Objects Num c.Children → Objects Num c.Children
  call (request built id velocity) s = (get_or_construct c built id velocity s).1
  call (advance delta) s = update_objects d delta s

  unfoldable pub calls : List (Call Num) → Objects Num c.Children → Objects Num c.Children
  calls [] s = s
  calls (k ∷ l) s = calls l (call k s)

module _ (c : Container) (h : IsContainer c) (d : Double) where
  open d use {Num}

  call-IsConsistent :
      (k : Call Num) (s : Objects Num c.Children) → IsConsistent c s → IsConsistent c (call c d k s)
  unfolding call update_objects
  call-IsConsistent (request built id velocity) s g =
      get_or_construct-IsConsistent c h built id velocity s g
  call-IsConsistent (advance delta) s g = record {
    distinct = g.distinct;
    older = g.older;
    shown = g.shown;
  }

  calls_from-IsConsistent :
      (l : List (Call Num)) (s : Objects Num c.Children)
      → IsConsistent c s
      → IsConsistent c (calls c d l s)
  unfolding calls
  calls_from-IsConsistent [] s g = g
  calls_from-IsConsistent (k ∷ l) s g =
      calls_from-IsConsistent l (call c d k s) (call-IsConsistent k s g)

  -- After any sequence of calls on new objects, the container shows exactly the objects of the map,
  -- none of them has two ids, and the references still to be given are new, where `add` and
  -- `remove` of the container do what `IsContainer` says.
  pub calls-IsConsistent : (l : List (Call Num)) → IsConsistent c (calls c d l (new_objects c))
  calls-IsConsistent l = calls_from-IsConsistent l (new_objects c) (new_objects-IsConsistent c h)
