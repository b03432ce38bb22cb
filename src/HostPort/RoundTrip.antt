-- ===== src/HostPort/RoundTrip.antt =====
-- The address of a listener, printed and split again.
use simult.Prelude.{
  ◌≡◌, refl, ap, ◌∙◌, Bool, true, not, none, some, [], ◌∷◌, ◌++◌, arith, ◌==◌, all, Bytes, is_digit,
}
use simult.HostPort.{
  cut_last, valid_optional_port, at_colon, before_bracket, strip_brackets, split_host_port,
}

cut_last-digits : (p : Bytes) → all is_digit p ≡ true → cut_last b':' p ≡ none
unfolding cut_last
cut_last-digits [] h = refl
cut_last-digits (c ∷ s) h = ground (arith, cut_last-digits s)

cut_last-append :
    (l p : Bytes) → all is_digit p ≡ true → cut_last b':' (l ++ b':' ∷ p) ≡ some (l, p)
unfolding cut_last
cut_last-append [] p h = rw (cut_last-digits p h) refl
cut_last-append (c ∷ l) p h = rw (cut_last-append l p h) refl

before_bracket-append : (s : Bytes) → before_bracket (s ++ b']' ∷ []) ≡ some s
unfolding before_bracket
before_bracket-append [] = refl
before_bracket-append (c ∷ []) = refl
before_bracket-append (c ∷ d ∷ s) = rw (before_bracket-append (d ∷ s)) refl

-- The host is not in brackets.
abbrev pub bare : Bytes → Bool
bare [] = true
bare (c ∷ s) = not (c == b'[')

strip_brackets-bare : (s : Bytes) → bare s ≡ true → strip_brackets s ≡ s
unfolding strip_brackets
strip_brackets-bare [] h = refl
strip_brackets-bare (c ∷ s) h = ground arith

strip_brackets-wrap : (s : Bytes) → strip_brackets (b'[' ∷ s ++ b']' ∷ []) ≡ s
unfolding strip_brackets
strip_brackets-wrap s = rw (before_bracket-append s) refl

split-append :
    (h p : Bytes) → all is_digit p ≡ true → split_host_port (h ++ b':' ∷ p) ≡ (strip_brackets h, p)
unfolding split_host_port at_colon valid_optional_port
split-append h p d = rw (cut_last-append h p d, d) refl

-- An address with a port of digits, or with an empty one, is split into its host and its port,
-- whether the host stands in brackets or not, if the host itself does not begin with a bracket.
pub split_host_port-print :
    (host port : Bytes)
    → all is_digit port ≡ true
    → bare host ≡ true
    → (split_host_port (host ++ b':' ∷ port) ≡ (host, port))
      × (split_host_port ((b'[' ∷ host ++ b']' ∷ []) ++ b':' ∷ port) ≡ (host, port))
split_host_port-print host port d b = (
  split-append host port d ∙ ap (λ h. (h, port)) (strip_brackets-bare host b),
  split-append (b'[' ∷ host ++ b']' ∷ []) port d ∙ ap (λ h. (h, port)) (strip_brackets-wrap host),
)
