-- ===== src/Utf8/Browser.antt =====
-- `utf8Encode` and `utf8Decode` of WebContent/js/SHA256_veness.js, on the browser's functions.
use general_worldwide_execut.Prelude.Text.{Text}
use general_worldwide_execut.Js.Outcome.{Outcome, returned, thrown, ◌>>=◌}

-- What ECMAScript gives: the two that throw on texts that are not well formed, and the two that
-- do not.
pub record Uri : Type 0 where
  pub encode_uri_component : Text → Outcome Text
  pub decode_uri_component : Text → Outcome Text
  pub escape : Text → Text
  pub unescape : Text → Text

module _ (u : Uri) where
  unfoldable pub utf8_encode : Text → Outcome Text
  utf8_encode this = u.encode_uri_component this >>= λ s. returned (u.unescape s)

  -- What throws is caught, and the text is returned as it is.
  unfoldable pub utf8_decode : Text → Text
  utf8_decode this = elim (u.decode_uri_component (u.escape this)) [
    | returned s ↦ s
    | thrown ↦ this
  ]
