-- ===== src/TipsetKey.antt =====
-- `Tipsetkey_from_string` of utils/utils.go: the key of a tipset from its text, as a list of bytes.
-- Decoding a cid and lotus's constructor of keys are parameters.
use filscan_backend.Prelude.{
  ℕ, suc, ◌-◌, ◌≤◌, ◌≡◌, refl, ap, ◌∙◌, false, Option, none, some, List, [], ◌∷◌, ◌++◌, length,
  take, drop, All, map, ltb, ◌==◌, nat_eq, if◌then◌else◌, arith, if_false, length-append,
}

abbrev pub Bytes : Type 0
Bytes = List ℕ

abbrev pub comma : ℕ
comma = b','

abbrev pub put_first : ℕ → List Bytes → List Bytes
put_first c [] = (c ∷ []) ∷ []
put_first c (part ∷ parts) = (c ∷ part) ∷ parts

-- `strings.Split(k, ",")`.
pub split : Bytes → List Bytes
split [] = [] ∷ []
split (c ∷ k) = let parts = split k in if c == comma then [] ∷ parts else put_first c parts

module _ {C K : Type 0} (decode : Bytes → Option C) (new_tipset_key : List C → K) where
  abbrev pub cons_decoded : Option C → Option (List C) → Option (List C)
  cons_decoded none rest = none
  cons_decoded (some id) none = none
  cons_decoded (some id) (some cids) = some (id ∷ cids)

  -- The loop over the parts, which returns nil at the first that is no cid.
  pub decode_all : List Bytes → Option (List C)
  decode_all [] = some []
  decode_all (e ∷ ks) = cons_decoded (decode e) (decode_all ks)

  abbrev pub made_key : Option (List C) → Option K
  made_key none = none
  made_key (some cids) = some (new_tipset_key cids)

  unfoldable pub tipsetkey_from_string : Bytes → Option K
  tipsetkey_from_string k =
      if ltb (length k) 5
      then none
      else made_key (decode_all (split (take (length k - 2) (drop 1 k))))

-- The parts with commas between them.
abbrev pub join : List Bytes → Bytes
join [] = []
join (part ∷ []) = part
join (part ∷ next ∷ parts) = part ++ comma ∷ join (next ∷ parts)

abbrev pub LacksComma : Bytes → Type 0
LacksComma part = All (λ c. (c == comma) ≡ false) part

split-last : (part : Bytes) → LacksComma part → split part ≡ part ∷ []
unfolding split
split-last [] h = refl
split-last (c ∷ part) h = if_false (c == comma) _ _ h.0 ∙ ap (put_first c) (split-last part h.1)

split-part :
    (part rest : Bytes) → LacksComma part → split (part ++ comma ∷ rest) ≡ part ∷ split rest
unfolding split
split-part [] rest h = refl
split-part (c ∷ part) rest h =
    if_false (c == comma) _ _ h.0 ∙ ap (put_first c) (split-part part rest h.1)

split-join :
    (part : Bytes) (parts : List Bytes)
    → All LacksComma (part ∷ parts)
    → split (join (part ∷ parts)) ≡ part ∷ parts
split-join part [] h = split-last part h.0
split-join part (next ∷ parts) h =
    split-part part (join (next ∷ parts)) h.0 ∙ ap (◌∷◌ part) (split-join next parts h.1)

take-length : (xs ys : Bytes) → take (length xs) (xs ++ ys) ≡ xs
take-length [] ys = refl
take-length (x ∷ xs) ys = ap (◌∷◌ x) (take-length xs ys)

take-inner :
    (inner : Bytes) → take (suc (length (inner ++ b'}' ∷ [])) - 2) (inner ++ b'}' ∷ []) ≡ inner
take-inner inner = ap (λ n. take n (inner ++ b'}' ∷ [])) at_length ∙ take-length inner (b'}' ∷ [])
  where
    at_length : suc (length (inner ++ b'}' ∷ [])) - 2 ≡ length inner
    at_length = omega (arith, length-append inner (b'}' ∷ []))

-- What the code relies on of cids and keys: a cid is decoded from its text, which has three bytes or
-- more and no comma; the text of a key has its cids between braces, with commas.
pub record Texts {C K : Type 0} (decode : Bytes → Option C) (new_tipset_key : List C → K)
    : Type 0 where
  pub cid_text : C → Bytes
  pub key_text : K → Bytes
  pub decode-text : (c : C) → decode (cid_text c) ≡ some c
  pub long : (c : C) → 3 ≤ length (cid_text c)
  pub plain : (c : C) → LacksComma (cid_text c)
  pub text_of_key :
      (cids : List C)
      → key_text (new_tipset_key cids) ≡ b'{' ∷ (join (map cid_text cids) ++ b'}' ∷ [])

module _ {C K : Type 0} (decode : Bytes → Option C) (new_tipset_key : List C → K)
    (texts : Texts decode new_tipset_key) where
  decode_all-texts :
      (cids : List C) → decode_all decode new_tipset_key (map texts.cid_text cids) ≡ some cids
  unfolding decode_all
  decode_all-texts [] = refl
  decode_all-texts (c ∷ cids) = rw (texts.decode-text c, decode_all-texts cids) refl

  texts-LacksComma : (cids : List C) → All LacksComma (map texts.cid_text cids)
  texts-LacksComma [] = tt
  texts-LacksComma (c ∷ cids) = (texts.plain c, texts-LacksComma cids)

  long_join : (c : C) (cids : List C) → 3 ≤ length (join (map texts.cid_text (c ∷ cids)))
  long_join c [] = texts.long c
  long_join c (d ∷ cids) = omega (
    arith,
    texts.long c,
    length-append (texts.cid_text c) (comma ∷ join (map texts.cid_text (d ∷ cids))),
  )

  from_braces :
      (inner : Bytes)
      → 3 ≤ length inner
      → tipsetkey_from_string decode new_tipset_key (b'{' ∷ (inner ++ b'}' ∷ []))
        ≡ made_key decode new_tipset_key (decode_all decode new_tipset_key (split inner))
  unfolding tipsetkey_from_string
  from_braces inner h =
      if_false (ltb (length (b'{' ∷ (inner ++ b'}' ∷ []))) 5) _ _
        (ground (arith, length-append inner (b'}' ∷ [])))
      ∙ ap (λ part. made_key decode new_tipset_key (decode_all decode new_tipset_key (split part)))
          (take-inner inner)

  -- The key of a tipset with a block or more is read back from its text; the text of the key without
  -- blocks, as of the parents of the genesis, gives nil.
  pub tipsetkey_from_string-text :
      (c : C) (cids : List C)
      → (tipsetkey_from_string decode new_tipset_key (texts.key_text (new_tipset_key (c ∷ cids)))
          ≡ some (new_tipset_key (c ∷ cids)))
        × (tipsetkey_from_string decode new_tipset_key (texts.key_text (new_tipset_key [])) ≡ none)
  unfolding tipsetkey_from_string
  tipsetkey_from_string-text c cids = (
    ap (tipsetkey_from_string decode new_tipset_key) (texts.text_of_key (c ∷ cids))
        ∙ from_braces _ (long_join c cids)
        ∙ ap (λ parts. made_key decode new_tipset_key (decode_all decode new_tipset_key parts))
            (split-join _ _ (texts-LacksComma (c ∷ cids)))
        ∙ ap (made_key decode new_tipset_key) (decode_all-texts (c ∷ cids)),
    ap (tipsetkey_from_string decode new_tipset_key) (texts.text_of_key []),
  )
