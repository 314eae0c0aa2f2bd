-- ===== src/Mqtt/Cache.antt =====
-- The plug cache: api/mqtt/plug_cache.go. The repository's FindByNamespaceAndSlug is an argument, which
-- returns the plug's identifier; a database error is `none` too, since Lookup treats it alike.
use ev_charge_controller.Prelude.{ℕ, Bool, ◌&&◌, Option, none, some, List, [], ◌∷◌, if◌then◌else◌}
use ev_charge_controller.Hhmm.{Text, text_eq}

-- NamespaceSlug
pub record NamespaceSlug : Type 0 where
  pub namespace : Text
  pub slug : Text

-- PlugCache, with the map as its entries.
pub record PlugCache : Type 0 where
  pub entries : List (NamespaceSlug × ℕ)

abbrev pub key_eq : NamespaceSlug → NamespaceSlug → Bool
key_eq a b = text_eq a.namespace b.namespace && text_eq a.slug b.slug

unfoldable pub get : NamespaceSlug → List (NamespaceSlug × ℕ) → Option ℕ
get key [] = none
get key ((k, id) ∷ es) = if key_eq k key then some id else get key es

unfoldable pub remove : NamespaceSlug → List (NamespaceSlug × ℕ) → List (NamespaceSlug × ℕ)
remove key [] = []
remove key ((k, id) ∷ es) = if key_eq k key then remove key es else (k, id) ∷ remove key es

abbrev pub Repository : Type 0
Repository = NamespaceSlug → Option ℕ

abbrev pub load : PlugCache → NamespaceSlug → Option ℕ → PlugCache × Option ℕ
load c key none = (c, none)
load c key (some id) = (record { entries = (key, id) ∷ c.entries }, some id)

abbrev pub cached_or : PlugCache → NamespaceSlug → Repository → Option ℕ → PlugCache × Option ℕ
cached_or c key repo (some id) = (c, some id)
cached_or c key repo none = load c key (repo key)

unfoldable pub lookup : PlugCache → Repository → NamespaceSlug → PlugCache × Option ℕ
unfolding get
lookup c repo key = cached_or c key repo (get key c.entries)

unfoldable pub invalidate : PlugCache → NamespaceSlug → PlugCache
unfolding remove
invalidate c key = record { entries = remove key c.entries }
