-- ===== src/Json.antt =====
-- include/forger/json.hpp: the values of JSON, and the lookup of a member.
pub mod Cursor
pub mod Strings
pub mod Parser
use chaos_forger.Prelude.{Bool, Option, none, some, Bytes, same, if◌then◌else◌}
use chaos_forger.Double.{Double}

module _ (d : Double) where
  -- An object is the list of its members in the order of `std::map`, each key once.
  mutual
    pub data Json : Type 0 where
      null : Json
      boolean : Bool → Json
      number : d.Carrier → Json
      string : Bytes → Json
      array : Items → Json
      object : Members → Json

    pub data Items : Type 0 where
      nil : Items
      cons : Json → Items → Items

    pub data Members : Type 0 where
      end : Members
      member : Bytes → Json → Members → Members

  unfoldable pub lookup : Members → Bytes → Option Json
  lookup end key = none
  lookup (member name value rest) key =
      let later = lookup rest key in if same name key then some value else later

  -- `Json::find`.
  unfoldable pub find : Json → Bytes → Option Json
  unfolding lookup
  find (object members) key = lookup members key
  find _ key = none
