-- ===== src/Stores/Entities.antt =====
-- frontend/lib/store/create-entity-store.ts: a list of entities with soft deletion. An entity is a
-- JavaScript object, its properties as a dictionary; writing to the browser's storage is not modelled.
pub mod Refined
use mentorio.Prelude.{
  Bool, true, false, not, Option, none, some, List, [], ◌∷◌, String, if◌then◌else◌, map,
}
use mentorio.Prelude.Text.{Text, codes, same}
use mentorio.Prelude.Dict.{Dict, get, put}
use mentorio.Json.{Json, null, str, opt_truthy}

abbrev pub Entity : Type 0
Entity = Dict Json

abbrev pub EntityState : Type 0
EntityState = List Entity

-- `{ ...item, ...patch }`
unfoldable pub spread : Entity → Dict Json → Entity
spread item [] = item
spread item ((k, v) ∷ patch) = spread (put k v item) patch

-- `i.id === id`
abbrev pub is_id : Text → Option Json → Bool
is_id id (some (str own)) = same own id
is_id id _ = false

unfoldable pub has_id : Text → Entity → Bool
has_id id item = is_id id (get "id" item)

-- `item.id ?? fresh`, where `fresh` is made of the prefix and the clock.
abbrev pub id_or : Json → Option Json → Json
id_or fresh none = fresh
id_or fresh (some null) = fresh
id_or fresh (some v) = v

unfoldable pub add : Text → Entity → EntityState → EntityState
add fresh item items = put "id" (id_or (str fresh) (get "id" item)) item ∷ items

abbrev pub patched : Text → Dict Json → Entity → Entity
patched id patch item = if has_id id item then spread item patch else item

unfoldable pub update : Text → Dict Json → EntityState → EntityState
update id patch items = map (patched id patch) items

-- `now` is `new Date().toISOString()`.
unfoldable pub soft_delete : Text → Text → EntityState → EntityState
soft_delete now id items = update id (("deletedAt", str now) ∷ []) items

unfoldable pub restore : Text → EntityState → EntityState
restore id items = update id (("deletedAt", null) ∷ []) items

-- `!i.deletedAt`
unfoldable pub is_active : Entity → Bool
is_active item = not (opt_truthy (get "deletedAt" item))

unfoldable pub get_active : EntityState → EntityState
get_active [] = []
get_active (i ∷ items) = let rest = get_active items in if is_active i then i ∷ rest else rest
