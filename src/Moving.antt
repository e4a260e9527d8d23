-- ===== src/Moving.antt =====
-- `VelocityObjects` of WebContent/js/RunningInCircleBot1.js: objects that move by their velocity. The
-- page has one, which the globals `moving` and `scene` of `getOrConstructDefault` mean.
pub mod Refs
pub mod Consistent
pub mod Motion
pub mod Page
use general_worldwide_execut.Prelude.{
  ℕ, suc, ◌+◌, List, [], ◌∷◌, ◌++◌, Option, none, some, Bool, true, false, ◌==◌, ◌&&◌, ◌||◌, not,
  ◌≡◌, if◌then◌else◌,
}
use general_worldwide_execut.Prelude.Text.{Text}
use general_worldwide_execut.Js.Double.{Double}
use general_worldwide_execut.Js.Object.{get, put}
use general_worldwide_execut.Three.{Vector3}

-- An object of the scene, which may have a velocity.
pub record Mover (N : Type 0) : Type 0 where
  pub place : Vector3 N
  pub velocity : Option (Vector3 N)

-- What the code uses of THREE.Object3D as a container: `add`, `remove`, where `none` is `undefined`,
-- and the children.
pub record Container : Type 1 where
  pub Children : Type 0
  pub empty : Children
  pub add : ℕ → Children → Children
  pub remove : Option ℕ → Children → Children
  pub shows : Children → ℕ → Bool

abbrev pub is_ref : Option ℕ → ℕ → Bool
is_ref none r = false
is_ref (some p) r = p == r

pub record IsContainer (c : Container) : Type 0 where
  pub shows-empty : (r : ℕ) → c.shows c.empty r ≡ false
  pub shows-add : (o r : ℕ) (l : c.Children) → c.shows (c.add o l) r ≡ (o == r || c.shows l r)
  pub shows-remove :
      (o : Option ℕ) (r : ℕ) (l : c.Children)
      → c.shows (c.remove o l) r ≡ (c.shows l r && not (is_ref o r))

-- The objects by their references, the next reference, and what the scene got.
pub record Objects (N C : Type 0) : Type 0 where
  pub map : List (Text × ℕ)
  pub container : C
  pub movers : List (ℕ × Mover N)
  pub fresh : ℕ
  pub scene : List ℕ

unfoldable pub read : {N : Type 0} → List (ℕ × Mover N) → ℕ → Option (Mover N)
read [] r = none
read ((p, m) ∷ l) r = if p == r then some m else read l r

unfoldable pub write : {N : Type 0} → List (ℕ × Mover N) → ℕ → Mover N → List (ℕ × Mover N)
write [] r m = (r, m) ∷ []
write ((p, n) ∷ l) r m = if p == r then (p, m) ∷ l else (p, n) ∷ write l r m

module _ (c : Container) {N : Type 0} where
  -- `new VelocityObjects()`
  unfoldable pub new_objects : Objects N c.Children
  new_objects = record { map = []; container = c.empty; movers = []; fresh = 0; scene = [] }

  unfoldable pub get_container : Objects N c.Children → c.Children
  get_container s = s.container

  unfoldable pub get_object : Text → Objects N c.Children → Option ℕ
  get_object id s = get s.map id

  unfoldable pub put_object : Text → ℕ → Objects N c.Children → Objects N c.Children
  put_object id obj s =
      let previous = get s.map id in
      record s { map = put s.map id obj; container = c.add obj (c.remove previous s.container) }

  -- A new mesh at the place where three.js builds it.
  unfoldable pub build :
      Vector3 N → Option (Vector3 N) → Objects N c.Children → Objects N c.Children
  build built velocity s = record s {
    movers = write s.movers s.fresh (record { place = built; velocity = velocity });
    fresh = suc s.fresh;
  }

  -- A new object goes to the map if the message has a velocity, and else to the scene.
  unfoldable pub construct :
      Vector3 N → Text → Option (Vector3 N) → Objects N c.Children → ℕ × Objects N c.Children
  unfolding build put_object
  construct built id none s =
      let made = build built none s in (s.fresh, record made { scene = made.scene ++ s.fresh ∷ [] })
  construct built id (some v) s = (s.fresh, put_object id s.fresh (build built (some v) s))

  -- `getOrConstructDefault(message)`, of the id and the velocity of the message.
  unfoldable pub get_or_construct :
      Vector3 N → Text → Option (Vector3 N) → Objects N c.Children → ℕ × Objects N c.Children
  unfolding get_object construct
  get_or_construct built id velocity s = elim (get_object id s) [
    | some r ↦ (r, s)
    | none ↦ construct built id velocity s
  ]

module _ (d : Double) where
  open d use {Num, add, mul}

  unfoldable pub moved : Num → Mover Num → Mover Num
  moved delta m = elim m.velocity [
    | none ↦ m
    | some v ↦ record m {
      place = record {
        x = add m.place.x (mul v.x delta);
        y = add m.place.y (mul v.y delta);
        z = add m.place.z (mul v.z delta);
      };
    }
  ]

  -- One key of the loop of `update`.
  unfoldable pub move : Num → ℕ → List (ℕ × Mover Num) → List (ℕ × Mover Num)
  unfolding read write moved
  move delta r movers = elim (read movers r) [
    | none ↦ movers
    | some m ↦ write movers r (moved delta m)
  ]

  unfoldable pub move_all : Num → List (Text × ℕ) → List (ℕ × Mover Num) → List (ℕ × Mover Num)
  unfolding move
  move_all delta [] movers = movers
  move_all delta ((key, r) ∷ map) movers = move_all delta map (move delta r movers)

  unfoldable pub update_objects : {C : Type 0} → Num → Objects Num C → Objects Num C
  unfolding move_all
  update_objects delta s = record s { movers = move_all delta s.map s.movers }
