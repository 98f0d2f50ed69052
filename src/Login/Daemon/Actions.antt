-- ===== src/Login/Daemon/Actions.antt =====
-- rust/dynamod-logind/src/manager.rs, device.rs, runtime_dir.rs, cgroup.rs: what the login daemon asks
-- of the system, and what a list of such requests leaves behind if they succeed. The code only logs one
-- that fails. `enumerate_session_devices` gives
-- every seat the same devices; there is one seat, `seat0`.
use dynamod.Common.{
  ℕ, String, ◌≡◌, refl, Bool, true, false, List, [], ◌∷◌, ◌++◌, Option, none, some, ite,
  string_discrete, ℕ_discrete,
}
use dynamod.Login.Data.{SessionId, SeatId}

pub data Action : Type 0 where
  ensure_runtime_dir : (uid gid : ℕ) (size : String) → Action
  release_runtime_dir : (uid : ℕ) → Action
  place_leader : (uid : ℕ) (id : SessionId) (pid : ℕ) → Action
  release_scope : (uid : ℕ) (id : SessionId) → Action
  release_user_slice : (uid : ℕ) → Action
  apply_session_acl : (seat : SeatId) (uid : ℕ) → Action
  revert_session_acl : (seat : SeatId) → Action
  terminate : (pid : ℕ) → Action
  drm_set_master : (fd : ℕ) → Action

-- The user to whom the last request for the devices of a seat hands them over, `o` at first; none if
-- it gives them back to root.
unfoldable pub holder : SeatId → List Action → Option ℕ → Option ℕ
holder k [] o = o
holder k (apply_session_acl seat uid ∷ xs) o =
    holder k xs (ite (string_discrete seat k) (some uid) o)
holder k (revert_session_acl seat ∷ xs) o = holder k xs (ite (string_discrete seat k) none o)
holder k (_ ∷ xs) o = holder k xs o

-- Whether the runtime directory of a user was asked for, and its removal was not since; `b` at first.
unfoldable pub wants_runtime_dir : ℕ → List Action → Bool → Bool
wants_runtime_dir u [] b = b
wants_runtime_dir u (ensure_runtime_dir uid gid size ∷ xs) b =
    wants_runtime_dir u xs (ite (ℕ_discrete uid u) true b)
wants_runtime_dir u (release_runtime_dir uid ∷ xs) b =
    wants_runtime_dir u xs (ite (ℕ_discrete uid u) false b)
wants_runtime_dir u (_ ∷ xs) b = wants_runtime_dir u xs b

pub holder-append :
    (k : SeatId) (xs ys : List Action) (o : Option ℕ)
    → holder k (xs ++ ys) o ≡ holder k ys (holder k xs o)
unfolding holder
holder-append k [] ys o = refl
holder-append k (apply_session_acl seat uid ∷ xs) ys o =
    holder-append k xs ys (ite (string_discrete seat k) (some uid) o)
holder-append k (revert_session_acl seat ∷ xs) ys o =
    holder-append k xs ys (ite (string_discrete seat k) none o)
holder-append k (_ ∷ xs) ys o = holder-append k xs ys o

pub wants_runtime_dir-append :
    (u : ℕ) (xs ys : List Action) (b : Bool)
    → wants_runtime_dir u (xs ++ ys) b ≡ wants_runtime_dir u ys (wants_runtime_dir u xs b)
unfolding wants_runtime_dir
wants_runtime_dir-append u [] ys b = refl
wants_runtime_dir-append u (ensure_runtime_dir uid gid size ∷ xs) ys b =
    wants_runtime_dir-append u xs ys (ite (ℕ_discrete uid u) true b)
wants_runtime_dir-append u (release_runtime_dir uid ∷ xs) ys b =
    wants_runtime_dir-append u xs ys (ite (ℕ_discrete uid u) false b)
wants_runtime_dir-append u (_ ∷ xs) ys b = wants_runtime_dir-append u xs ys b
