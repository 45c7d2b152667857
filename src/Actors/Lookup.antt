-- ===== src/Actors/Lookup.antt =====
-- What the tables that `parseActor` builds answer.
use filscan_backend.Prelude.{
  ℕ, ◌≡◌, refl, ◌≢◌, ap, sym, ◌∙◌, String, Option, none, some, List, [], ◌∷◌, ◌++◌, ◌==◌, nat_eq,
  if◌then◌else◌, length, get_elem?, Result, ok, fail, method_not_found, arith,
}
use mathlib.Core.List.{append_assoc, append-nil}
use filscan_backend.Actors.{
  MethodInfo, ActorTables, index_of, parse_loop, parse_actor, method_at, lookup_method, actor_for,
  parse_actor_message,
}

-- The last field with a number.
abbrev pub last_field : ℕ → List (String × ℕ) → Option MethodInfo
last_field num [] = none
last_field num ((field, mnum) ∷ fields) = elim (last_field num fields) [
  | some later ↦ some later
  | none ↦ if mnum == num then some (record { name = field; num = mnum }) else none
]

abbrev or_else {ℓ} : {A : Type ℓ} → Option A → Result (Option A) → Result (Option A)
or_else none r = r
or_else (some a) r = ok (some a)

get_elem?-append_last :
    (xs ys : List MethodInfo) (m : MethodInfo) → get_elem? (xs ++ m ∷ ys) (length xs) ≡ some m
get_elem?-append_last [] ys m = refl
get_elem?-append_last (x ∷ xs) ys m = get_elem?-append_last xs ys m

-- The methods grow at the end.
parse_loop-append :
    (fields : List (String × ℕ)) (infos : List MethodInfo) (mmap : List (ℕ × ℕ))
    → (more : List MethodInfo) × ((parse_loop fields infos mmap).0 ≡ infos ++ more)
unfolding parse_loop
parse_loop-append [] infos mmap = ([], sym (append-nil infos))
parse_loop-append ((field, mnum) ∷ fields) infos mmap =
    let m : MethodInfo = record { name = field; num = mnum } in
    let (more, e) = parse_loop-append fields (infos ++ m ∷ []) ((mnum, length infos) ∷ mmap) in
    (m ∷ more, e ∙ append_assoc infos (m ∷ []) more)

lookup_loop :
    (num : ℕ) (fields : List (String × ℕ)) (infos : List MethodInfo) (mmap : List (ℕ × ℕ))
    → let (methods, final) = parse_loop fields infos mmap in
      method_at methods (index_of num final)
      ≡ or_else (last_field num fields) (method_at methods (index_of num mmap))
unfolding parse_loop index_of method_at
lookup_loop num [] infos mmap = refl
lookup_loop num ((field, mnum) ∷ fields) infos mmap =
    let m : MethodInfo = record { name = field; num = mnum } in
    let next = (mnum, length infos) ∷ mmap in
    let ih = lookup_loop num fields (infos ++ m ∷ []) next in
    let (more, e) = parse_loop-append fields (infos ++ m ∷ []) next in
    let methods = (parse_loop fields (infos ++ m ∷ []) next).0 in
    let found : get_elem? methods (length infos) ≡ some m =
      ap (λ l. get_elem? l (length infos)) (e ∙ append_assoc infos (m ∷ []) more)
      ∙ get_elem?-append_last infos more m in
    ih ∙ ground (arith, found)

-- A method number is looked up, in the table that `parseActor` builds, without a panic: it gives the
-- last field with that number, and nothing exactly if there is none.
pub lookup_method-parse_actor :
    (actor : String) (fields : List (String × ℕ)) (num : ℕ)
    → lookup_method (parse_actor actor fields) num ≡ ok (last_field num fields)
unfolding lookup_method parse_actor
lookup_method-parse_actor actor fields num =
    lookup_loop num fields [] [] ∙ unfold index_of method_at in ground arith

-- `ParseActorMessage` of a message whose method is not 0, to an address whose actor (the storage miner,
-- if the address is not known) was made by `parseActor`: the result is that actor with the last field
-- of the message's method number, or the error that there is no such method, exactly if no field has it.
pub parse_actor_message_lem :
    (tables : ActorTables) (method : ℕ) (to actor : String) (fields : List (String × ℕ))
    → actor_for tables to ≡ some (parse_actor actor fields)
    → method ≢ 0
    → parse_actor_message tables method to ≡ elim (last_field method fields) [
      | none ↦ fail method_not_found
      | some m ↦ ok (parse_actor actor fields, m)
    ]
unfolding parse_actor_message
parse_actor_message_lem tables method to actor fields e h =
    ground (arith, lookup_method-parse_actor actor fields method)
