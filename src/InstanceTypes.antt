-- ===== src/InstanceTypes.antt =====
-- The types of pkg/providers/instancetype/instancetype.go. A `resource.Quantity` that was made by
-- `NewQuantity` is the integer that it was made of.
pub mod Inventory
pub mod GpuTables
pub mod Convert
pub mod Names
pub mod Labels
pub mod Filter
pub mod Listing
pub mod Lookup
pub mod Capacity
pub mod Offerings
use karpenter_provider_aliba.Prelude.{Bool, List, Option, String, ℤ}

abbrev pub Quantity : Type 0
Quantity = ℤ

pub record ZoneInfo : Type 0 where
  pub available : Bool
  pub capacity_types : List String
  pub known_capacity_types : List String

pub record Gpu : Type 0 where
  pub count : Option Quantity
  pub model : String
  pub memory : Option Quantity

pub record InstanceType : Type 0 where
  pub name : String
  pub architecture : String
  pub cpu : Option Quantity
  pub memory : Option Quantity
  pub storage : Option Quantity
  pub gpu : Option Gpu
  pub zones : List (String × ZoneInfo)
  pub eni_quantity : ℤ
  pub eni_private_ip_address_quantity : ℤ
