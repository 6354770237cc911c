-- ===== src/Registry/Types.antt =====
-- packages/cli/services/registry/backend/types.go: what the backends store and what they promise. An
-- operation returns its result beside the new state. A time is its number of nanoseconds, the bytes of
-- a model are numbers, and an error whose type no caller looks at is `failure`.
use cogment.Prelude.{
  ◌≡◌, ◌⊎◌, inl, inr, refl, ℕ, ◌-◌, ◌^◌, String, Bool, Option, List, ltb, if◌then◌else◌,
}
use cogment.Prelude.Dict.{Dict}
pub use cogment.Prelude.{ℤ, pos, negsuc}

-- `uint` has 64 bits.
abbrev pub uint_mod : ℕ
uint_mod = 2 ^ 64

-- `int(n)` of a `uint`.
abbrev pub to_int : ℕ → ℤ
to_int n = if ltb n (2 ^ 63) then pos n else negsuc (uint_mod - 1 - n)

pub record ModelInfo : Type 0 where
  pub model_id : String
  pub user_data : Dict String String

pub record VersionInfo : Type 0 where
  pub model_id : String
  pub version_number : ℕ
  pub creation_timestamp : ℕ
  pub archived : Bool
  pub data_hash : String
  pub data_size : ℕ
  pub user_data : Dict String String

-- The field `bytes` is `Data`. The version number 0 asks for a new version.
pub record VersionArgs : Type 0 where
  pub version_number : ℕ
  pub creation_timestamp : ℕ
  pub archived : Bool
  pub data_hash : String
  pub bytes : List ℕ
  pub user_data : Dict String String

pub data Error : Type 0 where
  unknown_model : String → Error
  unknown_model_version : String → ℤ → Error
  failure : String → Error

pub data Result (A : Type 0) : Type 0 where
  ok : A → Result A
  err : Error → Result A

-- Code that returns early on an error, over a state.
abbrev pub M : Type 0 → Type 0 → Type 0
M S A = S → Result A × S

abbrev pub proceed : {S A B : Type 0} → Result A × S → (A → M S B) → Result B × S
proceed (ok a, s) f = f a s
proceed (err e, s) f = (err e, s)

infixl 5 ◌>>=◌
abbrev pub ◌>>=◌ : {S A B : Type 0} → M S A → (A → M S B) → M S B
◌>>=◌ m f s = proceed (m s) f

abbrev pub pure : {S A : Type 0} → A → M S A
pure a s = (ok a, s)

abbrev pub raise : {S A : Type 0} → Error → M S A
raise e s = (err e, s)

-- A call answers or fails, in a new state.
pub Reply-cases :
    {S A : Type 0} (r : Result A × S)
    → ((a : A) × (s : S) × (r ≡ (ok a, s))) ⊎ ((e : Error) × (s : S) × (r ≡ (err e, s)))
Reply-cases (ok a, s) = inl (a, s, refl)
Reply-cases (err e, s) = inr (e, s, refl)

-- The interface, over the states `S` of a backend. `create_or_update_model` returns a model beside
-- its error, since a caller reads both. `Destroy` does nothing in any implementation.
pub record Backend (S : Type 0) : Type 0 where
  pub create_or_update_model : ModelInfo → S → (ModelInfo × Option Error) × S
  pub retrieve_model_info : String → M S ModelInfo
  pub retrieve_model_latest_version_number : String → M S ℕ
  pub has_model : String → M S Bool
  pub delete_model : String → M S (Unit {0})
  pub list_models : ℤ → ℤ → M S (List ModelInfo)
  pub create_or_update_model_version : String → VersionArgs → M S VersionInfo
  pub retrieve_model_last_version_info : String → M S VersionInfo
  pub retrieve_model_version_info : String → ℤ → M S VersionInfo
  pub retrieve_model_version_data : String → ℤ → M S (List ℕ)
  pub delete_model_version : String → ℤ → M S (Unit {0})
  pub list_model_version_infos : String → ℕ → ℤ → M S (List VersionInfo)
