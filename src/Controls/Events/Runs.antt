-- ===== src/Controls/Events/Runs.antt =====
-- The controls after any sequence of events.
use general_worldwide_execut.Prelude.{
  ℕ, ◌≡◌, refl, ap, sym, inl, inr, Bool-cases, ◌∙◌, Bool, true, false, List, [], ◌∷◌, ◌==◌, ◌||◌,
  ◌&&◌, arith, if◌then◌else◌,
}
use general_worldwide_execut.Controls.Events.{
  Event, context_menu, mouse_move, mouse_down, mouse_up, key_down, key_up, dispatch, dispatch_all,
  dispatch_walker_all,
}
use general_worldwide_execut.Controls.Fly.{
  Controls, Element, document, element, set_button, on_mouse_move,
}
use general_worldwide_execut.Controls.Keys.{KeyEvent, on_keys}
use general_worldwide_execut.Controls.Keys
use general_worldwide_execut.Controls.Keys.Trace.{
  Direction, ahead, back, leftward, rightward, upward, downward, fast, flag, belongs, held,
  set_key-flag, on_keys-flag,
}
use general_worldwide_execut.Controls.Walk.{Walker}
use general_worldwide_execut.Js.Double.{Double}

-- Whether a mouse button moves in the direction.
abbrev pub clicks : Direction → ℕ → Bool
clicks ahead button = button == 0
clicks back button = button == 2
clicks _ button = false

-- Whether the last event of the direction pressed a key or, if the mouse looks, a button.
abbrev pub pressed : {N : Type 0} → Direction → Bool → List (Event N) → Bool → Bool
pressed g look [] b = b
pressed g look (context_menu ∷ l) b = pressed g look l b
pressed g look (mouse_move x y ∷ l) b = pressed g look l b
pressed g look (mouse_down button ∷ l) b =
    pressed g look l (if look && clicks g button then true else b)
pressed g look (mouse_up button ∷ l) b =
    pressed g look l (if look && clicks g button then false else b)
pressed g look (key_down code ∷ l) b = pressed g look l (if belongs g code then true else b)
pressed g look (key_up code ∷ l) b = pressed g look l (if belongs g code then false else b)

-- Whether a key 32 came up or down.
abbrev pub has_space : {N : Type 0} → List (Event N) → Bool
has_space [] = false
has_space (key_down code ∷ l) = code == 32 || has_space l
has_space (key_up code ∷ l) = code == 32 || has_space l
has_space (_ ∷ l) = has_space l

-- The key events among the events.
abbrev pub only_keys : {N : Type 0} → List (Event N) → List KeyEvent
only_keys [] = []
only_keys (key_down code ∷ l) = Keys.key_down code ∷ only_keys l
only_keys (key_up code ∷ l) = Keys.key_up code ∷ only_keys l
only_keys (_ ∷ l) = only_keys l

dispatch_walker_all-only_keys :
    {N : Type 0} (l : List (Event N)) (c : Walker N)
    → dispatch_walker_all l c ≡ record c { keys = on_keys (only_keys l) c.keys }
unfolding dispatch_walker_all on_keys
dispatch_walker_all-only_keys [] c = refl
dispatch_walker_all-only_keys (context_menu ∷ l) c = dispatch_walker_all-only_keys l c
dispatch_walker_all-only_keys (mouse_move x y ∷ l) c = dispatch_walker_all-only_keys l c
dispatch_walker_all-only_keys (mouse_down button ∷ l) c = dispatch_walker_all-only_keys l c
dispatch_walker_all-only_keys (mouse_up button ∷ l) c = dispatch_walker_all-only_keys l c
dispatch_walker_all-only_keys (key_down code ∷ l) c =
    dispatch_walker_all-only_keys l (record c { keys = Keys.on_key_down code c.keys })
dispatch_walker_all-only_keys (key_up code ∷ l) c =
    dispatch_walker_all-only_keys l (record c { keys = Keys.on_key_up code c.keys })

held-only_keys :
    {N : Type 0} (g : Direction) (l : List (Event N)) (b : Bool)
    → held g (only_keys l) b ≡ pressed g false l b
held-only_keys g [] b = refl
held-only_keys g (context_menu ∷ l) b = held-only_keys g l b
held-only_keys g (mouse_move x y ∷ l) b = held-only_keys g l b
held-only_keys g (mouse_down button ∷ l) b = held-only_keys g l b
held-only_keys g (mouse_up button ∷ l) b = held-only_keys g l b
held-only_keys g (key_down code ∷ l) b = held-only_keys g l (if belongs g code then true else b)
held-only_keys g (key_up code ∷ l) b = held-only_keys g l (if belongs g code then false else b)

-- After any sequence of events a direction's flag of the controls without a mouse is true exactly if
-- the last event at one of its keys, as the table of the directions has them, was a press, or if it
-- was true before and there was none; the events of the mouse do not count, and no event changes
-- anything but the flags.
pub dispatch_walker_all-flag :
    {N : Type 0} (g : Direction) (l : List (Event N)) (c : Walker N)
    → (flag g (dispatch_walker_all l c).keys ≡ pressed g false l (flag g c.keys))
      × (dispatch_walker_all l c ≡ record c { keys = (dispatch_walker_all l c).keys })
dispatch_walker_all-flag g l c =
    let only = dispatch_walker_all-only_keys l c in
    (
      ap (λ (w : Walker _). flag g w.keys) only
          ∙ on_keys-flag g (only_keys l) c.keys
          ∙ held-only_keys g l (flag g c.keys),
      only ∙ ap (λ (w : Walker _). record c { keys = w.keys }) (sym only),
    )

-- The key 32 belongs to no direction.
belongs_space : (g : Direction) → belongs g 32 ≡ false
belongs_space ahead = refl
belongs_space back = refl
belongs_space leftward = refl
belongs_space rightward = refl
belongs_space upward = refl
belongs_space downward = refl
belongs_space fast = refl

-- A move of the mouse changes where it is and nothing else.
module _ (d : Double) (x y : d.Num) (c : Controls d.Num) where
  on_mouse_move-keys : (el : Element d.Num) → (on_mouse_move d el x y c).keys ≡ c.keys
  unfolding on_mouse_move
  on_mouse_move-keys (document width height) = refl
  on_mouse_move-keys (element left top width height) = refl

  on_mouse_move-settings : (el : Element d.Num) → (on_mouse_move d el x y c).settings ≡ c.settings
  unfolding on_mouse_move
  on_mouse_move-settings (document width height) = refl
  on_mouse_move-settings (element left top width height) = refl

  on_mouse_move-space : (el : Element d.Num) → (on_mouse_move d el x y c).space ≡ c.space
  unfolding on_mouse_move
  on_mouse_move-space (document width height) = refl
  on_mouse_move-space (element left top width height) = refl

module _ (d : Double) (el : Element d.Num) where
  open d use {Num}

  set_button-flag :
      (g : Direction) (held : Bool) (button : ℕ) (c : Controls Num)
      → flag g (set_button d held button c).keys
        ≡ (if c.settings.active_look && clicks g button then held else flag g c.keys)
  unfolding set_button
  set_button-flag ahead held button c = ground arith
  set_button-flag back held button c = ground arith
  set_button-flag leftward held button c = ground arith
  set_button-flag rightward held button c = ground arith
  set_button-flag upward held button c = ground arith
  set_button-flag downward held button c = ground arith
  set_button-flag fast held button c = ground arith

  set_button-active_look :
      (held : Bool) (button : ℕ) (c : Controls Num)
      → (set_button d held button c).settings.active_look ≡ c.settings.active_look
  unfolding set_button
  set_button-active_look held button c = ground arith

  unless_space :
      (g : Direction) (held : Bool) (code : ℕ) (c k : Controls Num)
      → k.keys ≡ c.keys
      → flag g (if code == 32 then k else record c { keys = Keys.set_key held code c.keys }).keys
        ≡ (if belongs g code then held else flag g c.keys)
  unless_space g held code c k same = elim (Bool-cases (code == 32)) [
    | inl e ↦
        let code_32 : code ≡ 32 = ground arith in rw (code_32, belongs_space g) (ap (flag g) same)
    | inr e ↦ rw e (set_key-flag g held code c.keys)
  ]

  dispatch-flag :
      (g : Direction) (e : Event Num) (c : Controls Num)
      → flag g (dispatch d el e c).keys ≡ pressed g c.settings.active_look (e ∷ []) (flag g c.keys)
  unfolding dispatch
  dispatch-flag g context_menu c = refl
  dispatch-flag g (mouse_move x y) c = ap (flag g) (on_mouse_move-keys d x y c el)
  dispatch-flag g (mouse_down button) c = set_button-flag g true button c
  dispatch-flag g (mouse_up button) c = set_button-flag g false button c
  dispatch-flag g (key_down code) c = unless_space g true code c (record c { space = true }) refl
  dispatch-flag g (key_up code) c =
      unless_space g false code c (record c { space = true; jumping = false }) refl

  dispatch-active_look :
      (e : Event Num) (c : Controls Num)
      → (dispatch d el e c).settings.active_look ≡ c.settings.active_look
  unfolding dispatch
  dispatch-active_look context_menu c = refl
  dispatch-active_look (mouse_move x y) c =
      ap (λ k. k.active_look) (on_mouse_move-settings d x y c el)
  dispatch-active_look (mouse_down button) c = set_button-active_look true button c
  dispatch-active_look (mouse_up button) c = set_button-active_look false button c
  dispatch-active_look (key_down code) c = ground arith
  dispatch-active_look (key_up code) c = ground arith

  pressed-append :
      (g : Direction) (look : Bool) (e : Event Num) (l : List (Event Num)) (b : Bool)
      → pressed g look (e ∷ l) b ≡ pressed g look l (pressed g look (e ∷ []) b)
  pressed-append g look context_menu l b = refl
  pressed-append g look (mouse_move x y) l b = refl
  pressed-append g look (mouse_down button) l b = refl
  pressed-append g look (mouse_up button) l b = refl
  pressed-append g look (key_down code) l b = refl
  pressed-append g look (key_up code) l b = refl

  -- After any sequence of events a direction's flag is true exactly if the last press or release of
  -- one of its keys, or of its mouse button when the mouse looks, was a press, or if it was true
  -- before and there was none.
  pub dispatch_all-flag :
      (g : Direction) (l : List (Event Num)) (c : Controls Num)
      → flag g (dispatch_all d el l c).keys ≡ pressed g c.settings.active_look l (flag g c.keys)
  unfolding dispatch_all
  dispatch_all-flag g [] c = refl
  dispatch_all-flag g (e ∷ l) c =
      dispatch_all-flag g l (dispatch d el e c)
      ∙ rw (dispatch-flag g e c, dispatch-active_look e c)
          (sym (pressed-append g c.settings.active_look e l (flag g c.keys)))

  set_button-space :
      (held : Bool) (button : ℕ) (c : Controls Num) → (set_button d held button c).space ≡ c.space
  unfolding set_button
  set_button-space held button c = ground arith

  dispatch-space :
      (e : Event Num) (c : Controls Num)
      → (dispatch d el e c).space ≡ (c.space || has_space (e ∷ []))
  unfolding dispatch
  dispatch-space context_menu c = ground arith
  dispatch-space (mouse_move x y) c = on_mouse_move-space d x y c el ∙ ground arith
  dispatch-space (mouse_down button) c = set_button-space true button c ∙ ground arith
  dispatch-space (mouse_up button) c = set_button-space false button c ∙ ground arith
  dispatch-space (key_down code) c = ground arith
  dispatch-space (key_up code) c = ground arith

  has_space-append :
      (e : Event Num) (l : List (Event Num))
      → has_space (e ∷ l) ≡ (has_space (e ∷ []) || has_space l)
  has_space-append context_menu l = refl
  has_space-append (mouse_move x y) l = refl
  has_space-append (mouse_down button) l = refl
  has_space-append (mouse_up button) l = refl
  has_space-append (key_down code) l = ground arith
  has_space-append (key_up code) l = ground arith

  -- After any sequence of events `space` is true exactly if it was or a key 32 went down or up: no
  -- event clears it.
  pub dispatch_all-space :
      (l : List (Event Num)) (c : Controls Num)
      → (dispatch_all d el l c).space ≡ (c.space || has_space l)
  unfolding dispatch_all
  dispatch_all-space [] c = ground arith
  dispatch_all-space (e ∷ l) c =
      dispatch_all-space l (dispatch d el e c)
      ∙ rw (dispatch-space e c, has_space-append e l) (ground arith)
