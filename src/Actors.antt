-- ===== src/Actors.antt =====
-- filscaner/force/factors/actor.go, and `ParseActorMessage` of filscaner/fs_mining_util.go: the tables
-- of lotus's actors and their methods. The names and numbers that the source reads from lotus by
-- reflection, and the table from addresses to actors, are arguments.
pub mod Lookup
use filscan_backend.Prelude.{
  ℕ, suc, Bool, String, Option, none, some, List, [], ◌∷◌, ◌++◌, ◌==◌, nat_eq, string_eq,
  if◌then◌else◌, length, get_elem?, Result, ok, fail, out_of_range, actor_not_found,
  method_not_found, ◌>>=◌,
}

pub record MethodInfo : Type 0 where
  pub name : String
  pub num : ℕ

-- `method_map` is the Go map from a method's number to its place in `methods`, latest entry first.
pub record ActorInfo : Type 0 where
  pub actor : String
  pub methods : List MethodInfo
  pub method_map : List (ℕ × ℕ)

pub index_of : ℕ → List (ℕ × ℕ) → Option ℕ
index_of num [] = none
index_of num ((k, idx) ∷ m) = if k == num then some idx else index_of num m

-- The loop of `parseActor` over the fields of lotus's method table.
pub parse_loop : List (String × ℕ) → List MethodInfo → List (ℕ × ℕ) → List MethodInfo × List (ℕ × ℕ)
parse_loop [] infos mmap = (infos, mmap)
parse_loop ((field, mnum) ∷ fields) infos mmap =
    parse_loop fields (infos ++ record { name = field; num = mnum } ∷ [])
      ((mnum, length infos) ∷ mmap)

unfoldable pub parse_actor : String → List (String × ℕ) → ActorInfo
parse_actor actor fields =
    let (infos, mmap) = parse_loop fields [] [] in
    record { actor = actor; methods = infos; method_map = mmap }

pub method_at : List MethodInfo → Option ℕ → Result (Option MethodInfo)
method_at methods none = ok none
method_at methods (some idx) = elim (get_elem? methods idx) [
  | none ↦ fail out_of_range
  | some m ↦ ok (some m)
]

unfoldable pub lookup_method : ActorInfo → ℕ → Result (Option MethodInfo)
lookup_method a num = method_at a.methods (index_of num a.method_map)

-- `LookupByAddress` and `Lookup` at the code of the storage miner, as the tables of the process give
-- them.
pub record ActorTables : Type 0 where
  pub lookup_by_address : String → Option ActorInfo
  pub storage_miner : Option ActorInfo

-- The actor that a message is for: a storage miner, unless the address is known.
unfoldable pub actor_for : ActorTables → String → Option ActorInfo
actor_for tables to = elim (tables.lookup_by_address to) [
  | some a ↦ some a
  | none ↦ tables.storage_miner
]

unfoldable pub parse_actor_message : ActorTables → ℕ → String → Result (ActorInfo × MethodInfo)
unfolding actor_for
parse_actor_message tables method to =
    if method == 0 then fail actor_not_found else elim (actor_for tables to) [
      | none ↦ fail actor_not_found
      | some a ↦ do
        found ← lookup_method a method
        elim found [ none ↦ fail method_not_found | some m ↦ ok (a, m) ]
    ]
