-- ===== src/Tests/KeyRuns.antt =====
-- Runs of `Tipsetkey_from_string`: two cids, whose texts are told by their second letter.
use filscan_backend.Prelude.{
  ℕ, ◌≡◌, ◌≤◌, length, arith, refl, Bool, true, false, Option, none, some, List, [], ◌∷◌, ◌++◌, map,
  ◌==◌, nat_eq, if◌then◌else◌,
}
use filscan_backend.TipsetKey.{
  Bytes, join, LacksComma, Texts, tipsetkey_from_string, tipsetkey_from_string-text,
}

abbrev text : Bool → Bytes
text true = b'b' ∷ b'a' ∷ b'x' ∷ []
text false = b'b' ∷ b'b' ∷ b'x' ∷ []

abbrev second : Bytes → ℕ
second (a ∷ b ∷ rest) = b
second rest = 0

abbrev decode : Bytes → Option Bool
decode part =
    if second part == b'a' then some true else (if second part == b'b' then some false else none)

abbrev same : List Bool → List Bool
same cids = cids

decode-text : (c : Bool) → decode (text c) ≡ some c
decode-text true = refl
decode-text false = refl

text-length : (c : Bool) → 3 ≤ length (text c)
text-length true = omega arith
text-length false = omega arith

text-LacksComma : (c : Bool) → LacksComma (text c)
text-LacksComma true = (refl, (refl, (refl, tt)))
text-LacksComma false = (refl, (refl, (refl, tt)))

abbrev texts : Texts decode same
texts = record {
  cid_text = text;
  key_text = λ cids. b'{' ∷ (join (map text cids) ++ b'}' ∷ []);
  decode-text = decode-text;
  long = text-length;
  plain = text-LacksComma;
  text_of_key = λ cids. refl;
}

tipsetkey_from_string-text_example :
    (tipsetkey_from_string decode same (texts.key_text (true ∷ false ∷ []))
      ≡ some (true ∷ false ∷ []))
    × (tipsetkey_from_string decode same (texts.key_text []) ≡ none)
tipsetkey_from_string-text_example = tipsetkey_from_string-text decode same texts true (false ∷ [])
