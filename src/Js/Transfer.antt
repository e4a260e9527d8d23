-- ===== src/Js/Transfer.antt =====
-- What becomes of a value that one script writes by `JSON.stringify` and another reads by
-- `JSON.parse`: strings, booleans and `null` arrive as they are, a number as what is read from its
-- text, and one that is not finite as `null`. The members of an object have different names.
use general_worldwide_execut.Prelude.{◌≡◌, refl, Bool, true, ◌&&◌, not, if◌then◌else◌}
use general_worldwide_execut.Js.Double.{Double}
use general_worldwide_execut.Js.Json.{
  Value, null, bool, num, text, array, object, Items, nil, cons, Members, end, member,
}

module _ (d : Double) where
  open d use {Num, eq, neg, infinity}

  unfoldable pub is_finite : Num → Bool
  is_finite n = eq n n && not (eq n infinity) && not (eq n (neg infinity))

  unfoldable pub carried_number : Num → Value Num
  unfolding is_finite
  carried_number n = if is_finite n then num (d.of_text (d.to_text n)) else null

  unfoldable mutual
    unfolding carried_number

    pub carried : Value Num → Value Num
    carried null = null
    carried (bool b) = bool b
    carried (num n) = carried_number n
    carried (text s) = text s
    carried (array l) = array (carried_items l)
    carried (object m) = object (carried_members m)

    pub carried_items : Items Num → Items Num
    carried_items nil = nil
    carried_items (cons v l) = cons (carried v) (carried_items l)

    pub carried_members : Members Num → Members Num
    carried_members end = end
    carried_members (member k v m) = member k (carried v) (carried_members m)

  -- A number that arrives as it is: every finite double but the negative zero.
  abbrev pub IsCarried : Num → Type 0
  IsCarried n = (is_finite n ≡ true) × (d.of_text (d.to_text n) ≡ n)

  pub carried_number-num : (n : Num) → IsCarried n → carried_number n ≡ num n
  unfolding carried_number
  carried_number-num n (h, e) = rw (h, e) refl
