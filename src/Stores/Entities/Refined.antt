-- ===== src/Stores/Entities/Refined.antt =====
-- The store of entities against its abstract view, a function from identifiers to entities.
use mathlib.Core.Path.{fun_ext}
use mathlib.Core.Option.{map as map_option}
use mathlib.Core.Bool.{false≢true}
use mentorio.Prelude.{
  true, false, Option, none, some, List, [], ◌∷◌, String, if◌then◌else◌, All, ◌≡◌, refl, sym, ap,
  ◌∙◌, inl, inr, arith, Bool-cases, str_eq, eq_iff,
}
use mentorio.Prelude.Text.{Text, same, same_iff, eq_of_same}
use mentorio.Prelude.Dict.{Dict, get, put, get-put_self, get-put_ne}
use mentorio.Json.{Json, null, str}
use mentorio.Stores.Entities
use mentorio.Stores.Entities.{Entity, EntityState, spread, is_id, has_id, id_or, patched}

-- The newest entity with the identifier.
unfoldable pub view : EntityState → Text → Option Entity
view [] id = none
view (i ∷ items) id = if has_id id i then some i else view items id

pub data Op : Type 0 where
  add : Text → Entity → Op
  update : Text → Dict Json → Op
  soft_delete restore : Text → Op

-- A patch that leaves the identifier alone.
abbrev pub KeepsId : Op → Type 0
KeepsId (add fresh item) = Unit
KeepsId (update id patch) = get "id" patch ≡ none
KeepsId (soft_delete id) = Unit
KeepsId (restore id) = Unit

-- `now` is the clock's text at each operation that reads it.
unfoldable pub step : Text → Op → EntityState → EntityState
step now (add fresh item) items = Entities.add fresh item items
step now (update id patch) items = Entities.update id patch items
step now (soft_delete id) items = Entities.soft_delete now id items
step now (restore id) items = Entities.restore id items

unfoldable pub run : List (Text × Op) → EntityState → EntityState
run [] items = items
run ((now, op) ∷ ops) items = run ops (step now op items)

-- A function, changed by a patch at one identifier.
abbrev pub patch_at : Text → Dict Json → (Text → Option Entity) → Text → Option Entity
patch_at id patch f j = if same id j then map_option (λ i. spread i patch) (f j) else f j

-- The same operation on the function.
abbrev pub abstract_step : Text → Op → (Text → Option Entity) → Text → Option Entity
abstract_step now (add fresh item) f j =
    let own = id_or (str fresh) (get "id" item) in
    if is_id j (some own) then some (put "id" own item) else f j
abstract_step now (update id patch) f j = patch_at id patch f j
abstract_step now (soft_delete id) f j = patch_at id (("deletedAt", str now) ∷ []) f j
abstract_step now (restore id) f j = patch_at id (("deletedAt", null) ∷ []) f j

abbrev pub replay : List (Text × Op) → (Text → Option Entity) → Text → Option Entity
replay [] f = f
replay ((now, op) ∷ ops) f = replay ops (abstract_step now op f)

get-spread :
    (k : String) (patch : Dict Json) (item : Entity)
    → get k patch ≡ none
    → get k (spread item patch) ≡ get k item
unfolding spread get
get-spread k [] item h = refl
get-spread k ((j, v) ∷ patch) item h = elim (Bool-cases (str_eq j k)) [
  | inl here ↦ cc (rw here at h)
  | inr there ↦
      get-spread k patch (put j v item) (rw there at h)
      ∙ get-put_ne j k v item (λ e. false≢true (sym there ∙ (eq_iff j k).1 e))
]

is_id_unique : (a b : Text) (o : Option Json) → is_id a o ≡ true → is_id b o ≡ true → a ≡ b
is_id_unique a b (some (str own)) h k = sym (eq_of_same own a h) ∙ eq_of_same own b k
is_id_unique a b none h k = cc
is_id_unique a b (some v) h k = cc

module _ (id : Text) (patch : Dict Json) (keeps : get "id" patch ≡ none) where
  has_id-patched : (j : Text) (i : Entity) → has_id j (patched id patch i) ≡ has_id j i
  unfolding has_id
  has_id-patched j i = elim (Bool-cases (has_id id i)) [
    | inl own ↦ rw own (ap (is_id j) (get-spread "id" patch i keeps))
    | inr other ↦ rw other refl
  ]

  has_id-same : (j : Text) (i : Entity) → same id j ≡ true → has_id id i ≡ has_id j i
  has_id-same j i at = ap (λ k. has_id k i) (eq_of_same id j at)

  has_id-other :
      (j : Text) (i : Entity) → same id j ≡ false → has_id j i ≡ true → has_id id i ≡ false
  unfolding has_id
  has_id-other j i off found = elim (Bool-cases (has_id id i)) [
    | inl own ↦
        let equal = is_id_unique id j (get "id" i) own found in
        absurd (false≢true (sym off ∙ (same_iff id j).1 equal))
    | inr other ↦ other
  ]

  patched_at :
      (j : Text) (i : Entity)
      → has_id j i ≡ true
      → some (patched id patch i) ≡ (if same id j then some (spread i patch) else some i)
  patched_at j i found = elim (Bool-cases (same id j)) [
    | inl at ↦ rw (has_id-same j i at, found, at) refl
    | inr off ↦ rw (has_id-other j i off found, off) refl
  ]

  view-update :
      (items : EntityState) (j : Text)
      → view (Entities.update id patch items) j ≡ patch_at id patch (view items) j
  unfolding view Entities.update
  view-update [] j = ground arith
  view-update (i ∷ items) j = elim (Bool-cases (has_id j i)) [
    | inl found ↦ rw (has_id-patched j i, found) (patched_at j i found)
    | inr not_found ↦ rw (has_id-patched j i, not_found) (view-update items j)
  ]

id_of_put :
    (item : Entity) (own : Json) (j : Text) → has_id j (put "id" own item) ≡ is_id j (some own)
unfolding has_id
id_of_put item own j = ap (is_id j) (get-put_self "id" own item)

view-add :
    (now fresh : Text) (item : Entity) (items : EntityState) (j : Text)
    → view (Entities.add fresh item items) j ≡ abstract_step now (add fresh item) (view items) j
unfolding view Entities.add
view-add now fresh item items j =
    let own = id_or (str fresh) (get "id" item) in
    ap (λ b. if b then some (put "id" own item) else view items j) (id_of_put item own j)

step-abstract_step :
    (now : Text) (op : Op) (items : EntityState)
    → KeepsId op
    → view (step now op items) ≡ abstract_step now op (view items)
unfolding step get Entities.soft_delete Entities.restore
step-abstract_step now (add fresh item) items h = fun_ext λ j. view-add now fresh item items j
step-abstract_step now (update id patch) items h = fun_ext λ j. view-update id patch h items j
step-abstract_step now (soft_delete id) items h =
    fun_ext λ j. view-update id (("deletedAt", str now) ∷ []) refl items j
step-abstract_step now (restore id) items h =
    fun_ext λ j. view-update id (("deletedAt", null) ∷ []) refl items j

-- After any run of operations whose patches leave the identifiers alone, the entity under every
-- identifier is the one that the same operations make of a function from identifiers to entities.
pub run-replay :
    (ops : List (Text × Op)) (items : EntityState)
    → All (λ timed. KeepsId timed.1) ops
    → view (run ops items) ≡ replay ops (view items)
unfolding run
run-replay [] items h = refl
run-replay ((now, op) ∷ ops) items (keeps, h) =
    run-replay ops (step now op items) h ∙ ap (replay ops) (step-abstract_step now op items keeps)
