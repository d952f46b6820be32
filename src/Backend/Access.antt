-- ===== src/Backend/Access.antt =====
-- backend/app/api/deps.py: who a request acts for, and which roles and devices it may use. The
-- decoding of access tokens and of UUIDs is an argument; of a device only the columns that these
-- functions read are there, and the audit keeps the user of each denial. `device_id` is unique in
-- its table.
use shtapm.Base.{
  ℕ, Bool, false, not, ◌||◌, ◌==◌, Option, none, some, List, [], ◌∷◌, String, str_eq, if◌then◌else◌,
  ◌≡◌, ◌⊎◌, inl, inr, refl, subst, All, Bool-cases, eq_iff,
}
use shtapm.Backend.Auth.{User, get_user}

-- The HTTPException that a dependency raises.
pub data Denied : Type 0 where
  missing_bearer_token invalid_or_expired_token malformed_subject no_longer_active : Denied
  insufficient_role device_not_found : Denied

unfoldable pub status_code : Denied → ℕ
status_code insufficient_role = 403
status_code device_not_found = 404
status_code _ = 401

abbrev pub active_user : Option User → Denied ⊎ User
active_user none = inl no_longer_active
active_user (some u) = if not u.is_active then inl no_longer_active else inr u

-- `get_current_user`, of the credentials of a request; `decode` gives a token's subject.
unfoldable pub get_current_user :
    (String → Option String) → (String → Option ℕ) → List User → Option String → Denied ⊎ User
get_current_user decode uuid users none = inl missing_bearer_token
get_current_user decode uuid users (some token) = elim (decode token) [
  | none ↦ inl invalid_or_expired_token
  | some sub ↦ elim (uuid sub) [
    | none ↦ inl malformed_subject
    | some id ↦ active_user (get_user id users)
  ]
]

abbrev pub is_allowed : String → List String → Bool
is_allowed role [] = false
is_allowed role (r ∷ rest) = str_eq role r || is_allowed role rest

-- The check that `require_role` makes, with the audit after it.
unfoldable pub require_role : List String → User → List ℕ → List ℕ × (Denied ⊎ User)
require_role allowed u audit =
    if not (is_allowed u.role allowed)
    then (u.id ∷ audit, inl insufficient_role)
    else (audit, inr u)

pub record Device : Type 0 where
  pub device_id : String
  pub owner : Option ℕ

abbrev pub owns : User → Option ℕ → Bool
owns u none = false
owns u (some id) = u.id == id

abbrev pub may_see : User → Device → Bool
may_see u d = str_eq u.role "admin" || owns u d.owner

unfoldable pub find_device : String → List Device → Option Device
find_device id [] = none
find_device id (d ∷ rest) =
    let found = find_device id rest in if str_eq d.device_id id then some d else found

abbrev pub seen_by : User → Option Device → Denied ⊎ Device
seen_by u none = inl device_not_found
seen_by u (some d) = if not (may_see u d) then inl device_not_found else inr d

unfoldable pub require_device_access : List Device → User → String → Denied ⊎ Device
unfolding find_device
require_device_access devices u id = seen_by u (find_device id devices)

-- `scope_devices_query`, on the table of devices.
unfoldable pub scope_devices : User → List Device → List Device
scope_devices u [] = []
scope_devices u (d ∷ rest) =
    let visible = scope_devices u rest in if may_see u d then d ∷ visible else visible

-- No two devices have one device id.
abbrev pub IsUnique : List Device → Type 0
IsUnique [] = Unit
IsUnique (d ∷ rest) = All (λ e. str_eq e.device_id d.device_id ≡ false) rest × IsUnique rest

not_in_scope :
    (u : User) (id : String) (devices : List Device)
    → All (λ e. str_eq e.device_id id ≡ false) devices
    → find_device id (scope_devices u devices) ≡ none
unfolding find_device scope_devices
not_in_scope u id [] h = refl
not_in_scope u id (d ∷ rest) (other, h) = elim (Bool-cases (may_see u d)) [
  | inl e ↦ rw (e, other) (not_in_scope u id rest h)
  | inr e ↦ rw e (not_in_scope u id rest h)
]

seen_in_scope :
    (devices : List Device) (u : User) (id : String)
    → IsUnique devices
    → seen_by u (find_device id devices) ≡ seen_by u (find_device id (scope_devices u devices))
unfolding scope_devices find_device
seen_in_scope [] u id h = refl
seen_in_scope (d ∷ rest) u id (once, h) = elim (Bool-cases (str_eq d.device_id id)) [
  | inl same ↦ elim (Bool-cases (may_see u d)) [
    | inl e ↦ rw (same, e, same, e) refl
    | inr e ↦
        let here : d.device_id ≡ id = (eq_iff d.device_id id).0 same in
        let others = subst (λ k. All (λ x. str_eq x.device_id k ≡ false) rest) here once in
        rw (same, e, not_in_scope u id rest others) refl
  ]
  | inr other ↦ elim (Bool-cases (may_see u d)) [
    | inl e ↦ rw (other, e, other) (seen_in_scope rest u id h)
    | inr e ↦ rw (other, e) (seen_in_scope rest u id h)
  ]
]

-- A request learns nothing of devices outside its scope: what `require_device_access` answers for
-- any device id is the same as if the table held only the devices that `scope_devices_query` lists
-- for the user, so a device of somebody else is answered for as one that does not exist.
pub access_within_scope :
    (devices : List Device) (u : User) (id : String)
    → IsUnique devices
    → require_device_access devices u id ≡ require_device_access (scope_devices u devices) u id
unfolding require_device_access
access_within_scope devices u id h = seen_in_scope devices u id h
