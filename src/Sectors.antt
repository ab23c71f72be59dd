-- ===== src/Sectors.antt =====
-- internal/bus/sectorscache.go: the sectors of uploads that are not finished yet.
pub mod Laws
use sia_optimization_proposa.Prelude.{ℕ, ◌+◌, Bool, Option, none, some, List, [], ◌∷◌, ◌++◌, ltb}
use sia_optimization_proposa.Prelude.Maps.{Map, lookup, insert, delete, prune}

-- Times are nanoseconds since the zero time.
abbrev pub cache_expiry : ℕ
cache_expiry = 86400000000000

pub record OngoingUpload : Type 0 where
  pub started : ℕ
  pub sectors : List ℕ

add_at : Map OngoingUpload → ℕ → List ℕ → Option OngoingUpload → Option (Map OngoingUpload)
add_at uploads id roots none = none
add_at uploads id roots (some u) =
    some (insert id (record u { sectors = u.sectors ++ roots }) uploads)

-- `AddSectors`; `none` is `ErrUnknownUpload`.
unfoldable pub add_sectors : Map OngoingUpload → ℕ → List ℕ → Option (Map OngoingUpload)
unfolding add_at
add_sectors uploads id roots = add_at uploads id roots (lookup id uploads)

abbrev pub is_expired : ℕ → OngoingUpload → Bool
is_expired now u = ltb (u.started + cache_expiry) now

unfoldable pub finish_upload : ℕ → Map OngoingUpload → ℕ → Map OngoingUpload
finish_upload now uploads id = prune (is_expired now) (delete id uploads)

-- `Sectors`
unfoldable pub all_sectors : Map OngoingUpload → List ℕ
all_sectors [] = []
all_sectors ((id, u) ∷ uploads) = u.sectors ++ all_sectors uploads

start_at : ℕ → Map OngoingUpload → ℕ → Option OngoingUpload → Option (Map OngoingUpload)
start_at now uploads id none = some (insert id (record { started = now; sectors = [] }) uploads)
start_at now uploads id (some u) = none

-- `StartUpload`; `none` is `ErrUploadAlreadyExists`.
unfoldable pub start_upload : ℕ → Map OngoingUpload → ℕ → Option (Map OngoingUpload)
unfolding start_at
start_upload now uploads id = start_at now uploads id (lookup id uploads)
