-- ===== src/SemanticMap/Saving.antt =====
-- semantic_map.py: what a location that is remembered leaves in the store.
use flyto_robotics.Prelude.{◌≡◌, ℕ, ◌+◌, Option, some}
use flyto_robotics.Python.{Runtime, Result, ok, raised}
use flyto_robotics.SemanticMap.{SemanticLocationMap, to_dict}
use flyto_robotics.SemanticMap.Store.{SemanticLocationStore, load, check_revision}

module _ {F : Type 0} ⦃rt : Runtime F⦄ where
  -- What the written map owes the store that was read, and the caller's revision.
  pub record IsUpdate (store : SemanticLocationStore F) (expected : Option ℕ)
      (m : SemanticLocationMap F) : Type 0 where
    pub map_id : m.map_id ≡ store.map_id
    pub before :
        (snapshot : SemanticLocationMap F) × (load store ≡ ok snapshot)
        × (m.revision ≡ snapshot.revision + 1)
        × (check_revision expected snapshot ≡ ok tt)

  -- What `remember` does, by its result.
  abbrev pub Remembers :
      SemanticLocationStore F
      → Option ℕ
      → Result (SemanticLocationMap F) × SemanticLocationStore F
      → Type 0
  Remembers store expected (raised e, after) = after ≡ store
  Remembers store expected (ok m, after) =
      IsUpdate store expected m
      × (after ≡ record store { contents = some (some (rt.json_dump (to_dict m))) })
