-- ===== src/Controls/Keys/Trace.antt =====
-- The flags after any sequence of key events.
use general_worldwide_execut.Prelude.{
  ℕ, ◌≡◌, refl, ap, ◌∙◌, Bool, true, false, List, [], ◌∷◌, ◌==◌, ◌||◌, arith, if◌then◌else◌,
}
use general_worldwide_execut.Controls.Keys.{Keys, KeyEvent, key_down, key_up, set_key, on_keys}

-- The directions in which a held key moves, and the key that makes it faster.
pub data Direction : Type 0 where
  ahead back leftward rightward upward downward fast : Direction

abbrev pub flag : Direction → Keys → Bool
flag ahead k = k.forward
flag back k = k.backward
flag leftward k = k.left
flag rightward k = k.right
flag upward k = k.up
flag downward k = k.down
flag fast k = k.shift

-- The keys of a direction: the arrows and W A S D, then R, F and shift.
abbrev pub belongs : Direction → ℕ → Bool
belongs ahead code = code == 38 || code == 87
belongs back code = code == 40 || code == 83
belongs leftward code = code == 37 || code == 65
belongs rightward code = code == 39 || code == 68
belongs upward code = code == 82
belongs downward code = code == 70
belongs fast code = code == 16

-- Whether the last event at a key of the direction was a press.
abbrev pub held : Direction → List KeyEvent → Bool → Bool
held g [] b = b
held g (key_down code ∷ events) b = held g events (if belongs g code then true else b)
held g (key_up code ∷ events) b = held g events (if belongs g code then false else b)

pub set_key-flag :
    (g : Direction) (b : Bool) (code : ℕ) (k : Keys)
    → flag g (set_key b code k) ≡ (if belongs g code then b else flag g k)
unfolding set_key
set_key-flag ahead b code k = ground arith
set_key-flag back b code k = ground arith
set_key-flag leftward b code k = ground arith
set_key-flag rightward b code k = ground arith
set_key-flag upward b code k = ground arith
set_key-flag downward b code k = ground arith
set_key-flag fast b code k = ground arith

-- After any sequence of key events the flag of a direction is true exactly if the last event at one
-- of its keys was a press, or it was true before and there was none.
pub on_keys-flag :
    (g : Direction) (events : List KeyEvent) (k : Keys)
    → flag g (on_keys events k) ≡ held g events (flag g k)
unfolding on_keys
on_keys-flag g [] k = refl
on_keys-flag g (key_down code ∷ events) k =
    on_keys-flag g events (set_key true code k) ∙ ap (held g events) (set_key-flag g true code k)
on_keys-flag g (key_up code ∷ events) k =
    on_keys-flag g events (set_key false code k) ∙ ap (held g events) (set_key-flag g false code k)
