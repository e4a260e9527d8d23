-- ===== src/QuadSpaces/Surrounding/Sets.antt =====
-- Sets of channels, and what an assignment of a channel to itself keeps.
use general_worldwide_execut.Prelude.{◌≡◌, refl, [], ◌∷◌, some, arith}
use general_worldwide_execut.Prelude.Text.{Text, eqb_text_iff}
use general_worldwide_execut.Js.Object.{put, get, get-put}
use general_worldwide_execut.QuadSpaces.Surrounding.{ChannelSet}

-- Every value of the set is its own key.
abbrev pub IsChannelSet : ChannelSet → Type 0
IsChannelSet [] = Unit
IsChannelSet ((k, v) ∷ o) = (k ≡ v) × IsChannelSet o

pub put-IsChannelSet : (o : ChannelSet) (k : Text) → IsChannelSet o → IsChannelSet (put o k k)
unfolding put
put-IsChannelSet [] k h = (refl, tt)
put-IsChannelSet ((j, v) ∷ o) k (e, h) = ground (arith, eqb_text_iff j k, put-IsChannelSet o k h)

-- A channel that is in the set stays in it.
pub put-stays : (o : ChannelSet) (k j : Text) → get o j ≡ some j → get (put o k k) j ≡ some j
put-stays o k j h = ground (arith, get-put o k j k, eqb_text_iff k j)

pub put-added : (o : ChannelSet) (k : Text) → get (put o k k) k ≡ some k
put-added o k = ground (arith, get-put o k k k, eqb_text_iff k k)

-- A set of channels that holds what `old` holds.
pub record Extends (old o : ChannelSet) : Type 0 where
  pub channels : IsChannelSet o
  pub keeps : (j : Text) → get old j ≡ some j → get o j ≡ some j

pub put-Extends : (old o : ChannelSet) (k : Text) → Extends old o → Extends old (put o k k)
put-Extends old o k h = record {
  channels = put-IsChannelSet o k h.channels;
  keeps = λ j e. put-stays o k j (h.keeps j e);
}

pub empty-Extends : Extends [] []
empty-Extends = record { channels = tt; keeps = λ j e. e }

-- The same, with the channel `own`.
abbrev pub Has : ChannelSet → Text → ChannelSet → Type 0
Has old own o = Extends old o × (get o own ≡ some own)

-- A set of channels that holds `own`.
abbrev pub Covers : Text → ChannelSet → Type 0
Covers own o = IsChannelSet o × (get o own ≡ some own)
