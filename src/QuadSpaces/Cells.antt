-- ===== src/QuadSpaces/Cells.antt =====
-- Positions that share a channel lie in the same cell of the grid.
use general_worldwide_execut.Prelude.{
  ℕ, zero, suc, ◌+◌, ◌-◌, ◌*◌, ◌^◌, ◌≤◌, ◌≡◌, ◌≢◌, ◌⊎◌, sym, ap, ◌∙◌, inl, inr, List, [], ◌∷◌, some,
  arith, dec_lt,
}
use general_worldwide_execut.Prelude.Int.{
  ℤ, pos, negsuc, pos_part, neg_part, ◌+ℤ◌, ◌-ℤ◌, scale, eq_of_parts, int_laws,
}
use general_worldwide_execut.Prelude.Text.{Text}
use general_worldwide_execut.Js.Double.{Double, IsIeee}
use general_worldwide_execut.Js.Word.{IsInt32}
use general_worldwide_execut.QuadSpaces.Axis.{digit, next, next-digit, next-IsInLoop, IsInLoop}
use general_worldwide_execut.QuadSpaces.Channel.{space_name-inj}
use general_worldwide_execut.QuadSpaces.Names.{list_to_string-decompose}
use general_worldwide_execut.QuadSpaces.RoundTrip.{
  word, recovered, recovered-low, recovered-top, first_round,
}
use general_worldwide_execut.QuadSpaces.Sum.{decompose_loop-eq-some}
use general_worldwide_execut.QuadSpaces.{decompose, decompose_loop, list_to_string, space_name}
use general_worldwide_execut.Three.{Vector3}

-- Inside the loop a word is known from its digit and its quarter.
next-digit_inj : (x y : ℤ) → IsInLoop x → IsInLoop y → digit x ≡ digit y → next x ≡ next y → x ≡ y
next-digit_inj x y h k e f =
    let dx = next-digit x h.word h.below in
    let dy : pos_part y + (neg_part (digit x) + 4 * neg_part (next x))
        ≡ neg_part y + (pos_part (digit x) + 4 * pos_part (next x)) =
      rw (e, f) (next-digit y k.word k.below) in
    eq_of_parts x y (omega (arith, dx, dy))

decompose_loop-ne-nil :
    (f : ℕ) (x y z p : ℤ) (l : List Text) → decompose_loop f x y z p ≡ some l → l ≢ []
decompose_loop-ne-nil zero x y z p l e none = unfold decompose_loop in absurd cc
decompose_loop-ne-nil (suc f) x y z p l e none =
    let (l', split, _) = decompose_loop-eq-some f x y z p l e in cc (none, split)

recovered_cases :
    (x : ℤ)
    → IsInt32 x
    → (recovered x ≡ x) ⊎ (recovered x ≡ x -ℤ pos (2 ^ 32)) × (2 ^ 31 - 2 ≤ pos_part x)
recovered_cases (negsuc n) h = inl (recovered-low (negsuc n) (omega arith))
recovered_cases (pos n) h = elim (dec_lt n (2 ^ 31 - 2)) [
  | yes l ↦ inl (recovered-low (pos n) l)
  | no l ↦ inr (recovered-top n (omega arith), omega arith)
]

recovered-inj : (x y : ℤ) → IsInt32 x → IsInt32 y → recovered x ≡ recovered y → x ≡ y
recovered-inj x y h k e = elim (recovered_cases x h) [
  | inl ex ↦ elim (recovered_cases y k) [
    | inl ey ↦ sym ex ∙ e ∙ ey
    | inr (ey, ly) ↦
        let same : x ≡ y -ℤ pos (2 ^ 32) = sym ex ∙ e ∙ ey in
        absurd (omega (int_laws, h.lower, k.upper, ap pos_part same, ap neg_part same))
  ]
  | inr (ex, lx) ↦ elim (recovered_cases y k) [
    | inl ey ↦
        let same : y ≡ x -ℤ pos (2 ^ 32) = sym ey ∙ sym e ∙ ex in
        absurd (omega (int_laws, k.lower, h.upper, ap pos_part same, ap neg_part same))
    | inr (ey, ly) ↦
        let same : x -ℤ pos (2 ^ 32) ≡ y -ℤ pos (2 ^ 32) = sym ex ∙ e ∙ ey in
        eq_of_parts x y (omega (int_laws, ap pos_part same, ap neg_part same))
  ]
]

-- Before the loop any word is.
first_round_inj : (x y : ℤ) → IsInt32 x → IsInt32 y → digit x ≡ digit y → next x ≡ next y → x ≡ y
first_round_inj x y h k e f =
    let same : recovered x ≡ recovered y =
      sym (first_round x h)
      ∙ ap (λ n. pos 0 +ℤ scale (4 ^ 0) n +ℤ scale (4 ^ 1) (next x)) e
      ∙ ap (λ n. pos 0 +ℤ scale (4 ^ 0) (digit y) +ℤ scale (4 ^ 1) n) f
      ∙ first_round y k in
    recovered-inj x y h k same

-- The three coordinates agree.
record AreSame (f : ℤ → ℤ) (x y z x' y' z' : ℤ) : Type 0 where
  on_x : f x ≡ f x'
  on_y : f y ≡ f y'
  on_z : f z ≡ f z'

abbrev AreWords : ℤ → ℤ → ℤ → Type 0
AreWords x y z = IsInt32 x × IsInt32 y × IsInt32 z

-- Runs that write the same names have the same digits and leave the same.
round-AreSame :
    (f g : ℕ) (x y z x' y' z' p : ℤ) (l : List Text)
    → ((l' : List Text)
        → decompose_loop f (next x) (next y) (next z) (p +ℤ pos 2) ≡ some l'
        → decompose_loop g (next x') (next y') (next z') (p +ℤ pos 2) ≡ some l'
        → AreSame next x y z x' y' z')
    → decompose_loop (suc f) x y z p ≡ some l
    → decompose_loop (suc g) x' y' z' p ≡ some l
    → AreSame digit x y z x' y' z' × AreSame next x y z x' y' z'
round-AreSame f g x y z x' y' z' p l rest e e' =
    let (t, split, more) = decompose_loop-eq-some f x y z p l e in
    let (t', split', more') = decompose_loop-eq-some g x' y' z' p l e' in
    let names : space_name (digit x) (digit y) (digit z) p ∷ t
        ≡ space_name (digit x') (digit y') (digit z') p ∷ t' =
      sym split ∙ split' in
    let first_name : space_name (digit x) (digit y) (digit z) p
        ≡ space_name (digit x') (digit y') (digit z') p =
      cc names in
    let tails : t ≡ t' = cc names in
    let (dx, dy, dz, _) =
      space_name-inj (digit x) (digit y) (digit z) p (digit x') (digit y') (digit z') p
        first_name in
    (
      record { on_x = dx; on_y = dy; on_z = dz },
      elim more [
        | inl (stop, nx, ny, nz) ↦ elim more' [
          | inl (_, nx', ny', nz') ↦ record {
            on_x = nx ∙ sym nx';
            on_y = ny ∙ sym ny';
            on_z = nz ∙ sym nz';
          }
          | inr ran' ↦ absurd (decompose_loop-ne-nil g _ _ _ _ t' ran' (sym tails ∙ stop))
        ]
        | inr ran ↦ elim more' [
          | inl (stop', _, _, _) ↦ absurd (decompose_loop-ne-nil f _ _ _ _ t ran (tails ∙ stop'))
          | inr ran' ↦ rest t ran (ran' ∙ ap some (sym tails))
        ]
      ],
    )

-- Runs on what a first round leaves start from the same words, if they write the same names.
loop-AreSame :
    (f g : ℕ) (x y z x' y' z' p : ℤ) (l : List Text)
    → AreWords x y z
    → AreWords x' y' z'
    → decompose_loop f (next x) (next y) (next z) p ≡ some l
    → decompose_loop g (next x') (next y') (next z') p ≡ some l
    → AreSame next x y z x' y' z'
loop-AreSame zero g x y z x' y' z' p l h k e e' = unfold decompose_loop in absurd cc
loop-AreSame (suc f) zero x y z x' y' z' p l h k e e' = unfold decompose_loop in absurd cc
loop-AreSame (suc f) (suc g) x y z x' y' z' p l (hx, hy, hz) (kx, ky, kz) e e' =
    let ax = next-IsInLoop x hx in
    let ay = next-IsInLoop y hy in
    let az = next-IsInLoop z hz in
    let bx = next-IsInLoop x' kx in
    let by = next-IsInLoop y' ky in
    let bz = next-IsInLoop z' kz in
    let (d, n) =
      round-AreSame f g (next x) (next y) (next z) (next x') (next y') (next z') p l
        (λ l'.
          loop-AreSame f g (next x) (next y) (next z) (next x') (next y') (next z') (p +ℤ pos 2) l'
            (ax.word, ay.word, az.word) (bx.word, by.word, bz.word))
        e e' in
    record {
      on_x = next-digit_inj (next x) (next x') ax bx d.on_x n.on_x;
      on_y = next-digit_inj (next y) (next y') ay by d.on_y n.on_y;
      on_z = next-digit_inj (next z) (next z') az bz d.on_z n.on_z;
    }

-- For any two positions and any two levels, if the lists of names that `decompose` returns are
-- written as the same channel, then the levels are the same, the lists are the same, and so are the
-- three coordinates divided by the edge of the level and cut to 32-bit words: no two cells of the
-- grid share a channel.
pub list_to_string-word :
    {d : Double} (ieee : IsIeee d) (v w : Vector3 d.Num) (p q : ℤ) (l m : List Text)
    → decompose d v p ≡ some l
    → decompose d w q ≡ some m
    → list_to_string l ≡ list_to_string m
    → (p ≡ q)
      × (l ≡ m)
      × (word d v.x p ≡ word d w.x p)
      × (word d v.y p ≡ word d w.y p)
      × (word d v.z p ≡ word d w.z p)
unfolding decompose
list_to_string-word {d} ieee v w p q l m el em e =
    let (level, names) = list_to_string-decompose d v w p q l m el em e in
    let em' : decompose d w p ≡ some l = ap (decompose d w) level ∙ em ∙ ap some (sym names) in
    let range : (a : d.Num) → IsInt32 (word d a p) =
      λ a. ieee.to_int32_range (d.mul a (d.pow2 (d.of_int (pos 0 -ℤ p)))) in
    let (digits, nexts) =
      round-AreSame 16 16 (word d v.x p) (word d v.y p) (word d v.z p) (word d w.x p) (word d w.y p)
        (word d w.z p) p l
        (λ l' r r'.
          loop-AreSame 16 16 (word d v.x p) (word d v.y p) (word d v.z p) (word d w.x p)
            (word d w.y p) (word d w.z p) (p +ℤ pos 2) l' (range v.x, range v.y, range v.z)
            (range w.x, range w.y, range w.z) r r')
        el em' in
    (
      level,
      names,
      first_round_inj _ _ (range v.x) (range w.x) digits.on_x nexts.on_x,
      first_round_inj _ _ (range v.y) (range w.y) digits.on_y nexts.on_y,
      first_round_inj _ _ (range v.z) (range w.z) digits.on_z nexts.on_z,
    )
