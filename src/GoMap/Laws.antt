-- ===== src/GoMap/Laws.antt =====
-- The laws of map reads after map writes.
use kubernetes_workflow.Base.{
  String, List, [], ◌∷◌, false, Option, none, some, ◌==◌, if◌then◌else◌, ◌≡◌, refl, ◌∙◌, arith,
  eq_iff, eq_refl, In, Bool-cases, inl, inr, member,
}
use kubernetes_workflow.GoMap.{
  GoMap, nil_map, made, Entries, get, assign, lookup, insert, erase, keys, insert_all,
}

-- The first of two values that is there.
abbrev pub or_else {ℓ} : {A : Type ℓ} → Option A → Option A → Option A
or_else (some a) o = some a
or_else none o = o

pub or_else-none {ℓ} : {A : Type ℓ} (o : Option A) → or_else o none ≡ o
or_else-none none = refl
or_else-none (some a) = refl

-- No key stands twice.
abbrev pub Distinct : List String → Type 0
Distinct [] = Unit
Distinct (k ∷ ks) = (member k ks ≡ false) × Distinct ks

module _ {ℓ} {V : Type ℓ} where
  pub lookup-nil : (k : String) → lookup {V = V} k [] ≡ none
  unfolding lookup
  lookup-nil k = refl

  -- What is read after a write: what was written under its key, and what was there under another.
  pub lookup-insert :
      (written wanted : String) (value : V) (held : Entries V)
      → lookup wanted (insert written value held)
        ≡ (if written == wanted then some value else lookup wanted held)
  unfolding lookup insert
  lookup-insert written wanted value [] = refl
  lookup-insert written wanted value ((key, first) ∷ more) = ground (
    arith,
    lookup-insert written wanted value more,
    eq_iff key written,
    eq_iff key wanted,
    eq_iff written wanted,
  )

  pub lookup-insert_self :
      (key : String) (value : V) (held : Entries V)
      → lookup key (insert key value held) ≡ some value
  lookup-insert_self key value held = lookup-insert key key value held ∙ simp eq_refl

  -- What is read after a deletion.
  pub lookup-erase :
      (gone wanted : String) (held : Entries V)
      → lookup wanted (erase gone held) ≡ (if gone == wanted then none else lookup wanted held)
  unfolding lookup erase
  lookup-erase gone wanted [] = ground arith
  lookup-erase gone wanted ((key, first) ∷ more) =
      ground (
        arith,
        lookup-erase gone wanted more,
        eq_iff key gone,
        eq_iff key wanted,
        eq_iff gone wanted,
      )

  pub In-keys : (k : String) (m : List (String × V)) {v : V} → lookup k m ≡ some v → In k (keys m)
  unfolding lookup
  In-keys k [] h = cc
  In-keys k ((j, w) ∷ m) h = elim (Bool-cases (j == k)) [
    | inl e ↦ inl (ground (arith, eq_iff j k))
    | inr n ↦ inr (In-keys k m (rw (n, lookup) at h))
  ]

  pub lookup_of_In :
      (k : String) (m : List (String × V)) → In k (keys m) → (v : V) × (lookup k m ≡ some v)
  unfolding lookup
  lookup_of_In k [] h = absurd h
  lookup_of_In k ((j, w) ∷ m) h = elim (Bool-cases (j == k)) [
    | inl e ↦ (w, rw e)
    | inr n ↦
        let later : In k (keys m) = elim h [ inl e ↦ ground (arith, eq_iff j k) | inr r ↦ r ] in
        let (v, found) = lookup_of_In k m later in (v, rw n found)
  ]

  lookup_absent :
      (k : String) (m : List (String × V)) → member k (keys m) ≡ false → lookup k m ≡ none
  unfolding lookup member
  lookup_absent k [] h = refl
  lookup_absent k ((j, v) ∷ m) h = ground (arith, eq_iff j k, eq_iff k j, lookup_absent k m)

  -- The entries of a map with distinct keys go over what was there.
  pub lookup-insert_all :
      (j : String) (src m : List (String × V))
      → Distinct (keys src)
      → lookup j (insert_all src m) ≡ or_else (lookup j src) (lookup j m)
  unfolding lookup insert_all
  lookup-insert_all j [] m d = refl
  lookup-insert_all j ((k, v) ∷ src) m d = ground (
    arith,
    eq_iff k j,
    lookup-insert_all j src (insert k v m) d.1,
    lookup-insert k j v m,
    lookup_absent k src,
    d.0,
  )

  -- What is read of a map after a write that does not panic.
  pub get-assign :
      (wanted key : String) (value : V) (held written : GoMap V)
      → assign key value held ≡ some written
      → get wanted written ≡ (if key == wanted then some value else get wanted held)
  get-assign wanted key value nil_map written e = cc
  get-assign wanted key value (made m) written e =
      let same : made (insert key value m) ≡ written = cc in
      rw (← same) (lookup-insert key wanted value m)
