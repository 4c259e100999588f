-- ===== src/Tests/Texts.antt =====
-- Canonical JSON and stripped texts at concrete inputs.
use portfolio_management.Common.{
  ◌≡◌, refl, [], ◌∷◌, text_json, texts_json, object_json, member, end, canonical_json, strip,
}

prints :
    canonical_json
      (object_json (member "b" (text_json "x\"y\n") (member "a" (texts_json ("p" ∷ "q" ∷ [])) end)))
    ≡ "{\"a\":[\"p\",\"q\"],\"b\":\"x\\\"y\\n\"}"
unfolding canonical_json
prints = refl

strips : strip " \t ab c\n" ≡ "ab c"
unfolding strip
strips = refl
