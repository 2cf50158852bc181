-- ===== src/Proto/Accounts.antt =====
-- accountpb.proto: an account, its balance, configuration and state.
use auticuro.Prelude.{
  Str, ℕ, Bool, true, false, Option, ◌==◌, bytes_eq, arith, ◌≡◌, ◌↔◌, bytes_eq_iff,
}
use auticuro.Prelude.Map.{Map}

pub record BalanceLimit : Type 0 where
  pub upper : Str
  pub lower : Str

-- `oneof asset_class { Cash cash = 1; }`
pub data AssetClass : Type 0 where
  cash : Str → AssetClass
  not_set : AssetClass

-- The derived `PartialEq`.
abbrev pub asset_class_eq : AssetClass → AssetClass → Bool
asset_class_eq (cash c) (cash d) = bytes_eq c d
asset_class_eq (cash c) not_set = false
asset_class_eq not_set (cash d) = false
asset_class_eq not_set not_set = true

pub record AccountConfig : Type 0 where
  pub balance_limit : Option BalanceLimit
  pub asset_class : AssetClass

pub record Balance : Type 0 where
  pub available : Str
  pub reservations : Map Str Str

pub data AccountState : Type 0 where
  invalid_state deleted locked normal : AccountState

abbrev pub tag : AccountState → ℕ
tag invalid_state = 0
tag deleted = 1
tag locked = 2
tag normal = 3

abbrev pub state_eq : AccountState → AccountState → Bool
state_eq s t = tag s == tag t

pub record Account : Type 0 where
  pub config : AccountConfig
  pub balance : Balance
  pub state : AccountState
  pub account_id : Str

pub asset_class_eq_iff : (c d : AssetClass) → (asset_class_eq c d ≡ true) ↔ (c ≡ d)
asset_class_eq_iff (cash c) (cash d) =
    (λ h. ground (arith, bytes_eq_iff c d), λ h. ground (arith, bytes_eq_iff c d))
asset_class_eq_iff (cash c) not_set = (λ h. cc, λ h. cc)
asset_class_eq_iff not_set (cash d) = (λ h. cc, λ h. cc)
asset_class_eq_iff not_set not_set = (λ h. cc, λ h. cc)

pub state_eq_iff : (s t : AccountState) → (state_eq s t ≡ true) ↔ (s ≡ t)
state_eq_iff s t = (λ h. ground arith, λ h. ground arith)
