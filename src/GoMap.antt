-- ===== src/GoMap.antt =====
-- Go's `map[string]V`, as the program's code uses it. A made map is its entries in the order in
-- which a `range` meets them: Go leaves that order open, and a statement about every list of
-- entries is a statement about every order. A read of a nil map finds nothing, a `range` over it
-- ends at once, and a write to it panics (`none`).
pub mod Laws
use kubernetes_workflow.Base.{
  String, List, [], ◌∷◌, Bool, true, false, Option, none, some, ◌==◌, if◌then◌else◌, map,
}

pub data GoMap {ℓ} (V : Type ℓ) : Type ℓ where
  nil_map : GoMap V
  made : List (String × V) → GoMap V

-- The entries of a made map, each key once.
abbrev pub Entries {ℓ} : Type ℓ → Type ℓ
Entries V = List (String × V)

module _ {ℓ} {V : Type ℓ} where
  -- A read of a key.
  unfoldable pub lookup : String → Entries V → Option V
  lookup wanted [] = none
  lookup wanted ((key, held) ∷ more) = if key == wanted then some held else lookup wanted more

  -- A write under a key: a key that is there keeps its place, a new one comes last.
  unfoldable pub insert : String → V → Entries V → Entries V
  insert written value [] = (written, value) ∷ []
  insert written value ((key, held) ∷ more) =
      if key == written then (written, value) ∷ more else (key, held) ∷ insert written value more

  unfoldable pub erase : String → Entries V → Entries V
  erase gone [] = []
  erase gone ((key, held) ∷ more) =
      if key == gone then erase gone more else (key, held) ∷ erase gone more

  abbrev pub keys : List (String × V) → List String
  keys [] = []
  keys ((k, v) ∷ m) = k ∷ keys m

  -- The entries that a `range` meets.
  abbrev pub entries : GoMap V → List (String × V)
  entries nil_map = []
  entries (made m) = m

  -- `m[k]` with the `ok` result.
  abbrev pub get : String → GoMap V → Option V
  get k m = lookup k (entries m)

  -- `m[k] = v`.
  abbrev pub assign : String → V → GoMap V → Option (GoMap V)
  assign k v nil_map = none
  assign k v (made m) = some (made (insert k v m))

  -- `delete(m, k)`, which a nil map allows.
  abbrev pub delete : String → GoMap V → GoMap V
  delete k nil_map = nil_map
  delete k (made m) = made (erase k m)

  -- `for k, v := range src { m[k] = v }`, for entries written into a made map.
  unfoldable pub insert_all : List (String × V) → List (String × V) → List (String × V)
  insert_all [] m = m
  insert_all ((k, v) ∷ src) m = insert_all src (insert k v m)

  abbrev pub is_nil : GoMap V → Bool
  is_nil nil_map = true
  is_nil (made m) = false
